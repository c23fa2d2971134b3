-- ===== src/Operator/Ending/Tests.antt =====
-- Tests of the end of `run`.
use cnwan_operator.Common.{◌≤◌, true, false, ◌≡◌, ◌⊎◌, refl}
use cnwan_operator.Operator.Ending.{
  Ending, at_stop_chan, returned, runs, ended, closed, started, close_exit_chan, Step, signals,
  manager_ends, manager_closes, Steps, nothing, followed,
}
use cnwan_operator.Operator.Ending.Bounded.{IsOver, ending_terminates}
use cnwan_operator.Operator.Ending.Panics.{ending_panics}

-- A signal comes while everything runs.
abbrev signalled_state : Ending
signalled_state = record started { signalled = true }

one_signal : Steps 1 started signalled_state
one_signal =
    followed 0 started signalled_state _ (signals started (refl, λ h. cc h) refl) (nothing _)

ending_terminates_example :
    (1 ≤ 7) × (true ≡ true → IsOver signalled_state ⊎ ((e : Ending) × Step signalled_state e))
ending_terminates_example = ending_terminates 1 signalled_state one_signal

-- The manager stops at once.
abbrev unmanaged_state : Ending
unmanaged_state = record started { manager = closed; exit_closed = true }

manager_stops : Steps 2 started unmanaged_state
unfolding close_exit_chan
manager_stops =
    followed 1 started (record started { manager = ended }) _
      (manager_ends started (refl, λ h. cc h) refl)
      (followed 0 (record started { manager = ended }) unmanaged_state _
        (manager_closes (record started { manager = ended }) (refl, λ h. cc h) refl) (nothing _))

ending_panics_example :
    (closed ≡ runs → (false ≡ false) × (at_stop_chan ≡ returned → (false ≡ true) × (runs ≡ closed)))
    × (false ≡ false
        → closed ≡ closed
        → (e : Ending) × Steps 4 unmanaged_state e × (e.panicked ≡ true))
ending_panics_example = ending_panics 2 unmanaged_state manager_stops
