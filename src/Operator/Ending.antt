-- ===== src/Operator/Ending.antt =====
-- main.go: how `run` ends. Two goroutines close the exit channel: the one that waits for
-- WatchForEvents, and the one in which the manager runs. A signal makes the function cancel the
-- watching and wait for the channel, and the end of the function ends the process.
pub mod Sound
pub mod Bounded
pub mod Panics
mod Tests
use cnwan_operator.Common.{ℕ, zero, suc, ◌+◌, Bool, true, false, ◌≡◌, ◌≢◌, if◌then◌else◌}

-- `<-stopChan`, `<-exitChan`, and after the function.
pub data MainPhase : Type 0 where
  at_stop_chan at_exit_chan returned : MainPhase

-- A goroutine that runs, one that is about to close the exit channel, and one that has closed it.
pub data Closer : Type 0 where
  runs ended closed : Closer

pub record Ending : Type 0 where
  pub phase : MainPhase
  pub signalled : Bool
  pub watch_cancelled : Bool
  pub watcher : Closer
  pub manager : Closer
  pub exit_closed : Bool
  pub panicked : Bool

abbrev pub started : Ending
started = record {
  phase = at_stop_chan;
  signalled = false;
  watch_cancelled = false;
  watcher = runs;
  manager = runs;
  exit_closed = false;
  panicked = false;
}

-- `close(exitChan)`, which panics if the channel is closed.
unfoldable pub close_exit_chan : Ending → Ending
close_exit_chan e =
    if e.exit_closed then record e { panicked = true } else record e { exit_closed = true }

-- The process is there.
abbrev pub IsAlive : Ending → Type 0
IsAlive e = (e.panicked ≡ false) × (e.phase ≢ returned)

-- Only the first signal matters. `manager.Start` may return by itself, with an error: nothing cancels
-- its context before the function returns.
pub data Step : Ending → Ending → Type 0 where
  signals : (e : Ending) → IsAlive e → e.signalled ≡ false → Step e (record e { signalled = true })
  stops :
      (e : Ending)
      → IsAlive e
      → e.phase ≡ at_stop_chan
      → e.signalled ≡ true
      → Step e (record e { phase = at_exit_chan; watch_cancelled = true })
  watcher_ends :
      (e : Ending)
      → IsAlive e
      → e.watcher ≡ runs
      → e.watch_cancelled ≡ true
      → Step e (record e { watcher = ended })
  watcher_closes :
      (e : Ending)
      → IsAlive e
      → e.watcher ≡ ended
      → Step e (close_exit_chan (record e { watcher = closed }))
  manager_ends : (e : Ending) → IsAlive e → e.manager ≡ runs → Step e (record e { manager = ended })
  manager_closes :
      (e : Ending)
      → IsAlive e
      → e.manager ≡ ended
      → Step e (close_exit_chan (record e { manager = closed }))
  main_returns :
      (e : Ending)
      → IsAlive e
      → e.phase ≡ at_exit_chan
      → e.exit_closed ≡ true
      → Step e (record e { phase = returned })

-- A number of steps.
pub data Steps : ℕ → Ending → Ending → Type 0 where
  nothing : (e : Ending) → Steps 0 e e
  followed : (n : ℕ) (e e' e'' : Ending) → Step e e' → Steps n e' e'' → Steps (suc n) e e''
