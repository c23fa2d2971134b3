-- ===== src/Operator/Ending/Bounded.antt =====
-- The end of `run` takes few steps and does not get stuck.
use cnwan_operator.Common.{
  ℕ, suc, ◌+◌, ◌≤◌, Bool, true, false, ◌≡◌, ◌⊎◌, ◌∙◌, refl, inl, inr, arith, Bool-cases,
}
use cnwan_operator.Operator.Ending.{
  Ending, MainPhase, at_stop_chan, at_exit_chan, returned, Closer, runs, ended, closed, started,
  close_exit_chan, IsAlive, Step, signals, stops, watcher_ends, watcher_closes, manager_ends,
  manager_closes, main_returns, Steps, nothing, followed,
}
use cnwan_operator.Operator.Ending.Sound.{IsSound, reached-IsSound}

abbrev left_signal : Bool → ℕ
left_signal true = 0
left_signal false = 1

abbrev left_phase : MainPhase → ℕ
left_phase at_stop_chan = 2
left_phase at_exit_chan = 1
left_phase returned = 0

abbrev left_closer : Closer → ℕ
left_closer runs = 2
left_closer ended = 1
left_closer closed = 0

-- How many steps are left at most.
steps_left : Ending → ℕ
steps_left e =
    left_signal e.signalled + (left_phase e.phase + (left_closer e.watcher + left_closer e.manager))

close_exit_chan-steps_left : (e : Ending) → steps_left (close_exit_chan e) ≡ steps_left e
unfolding close_exit_chan steps_left
close_exit_chan-steps_left e = elim (Bool-cases e.exit_closed) [
  | inl already ↦ simp already refl
  | inr open_yet ↦ simp open_yet refl
]

Step-steps_left : {e e' : Ending} → Step e e' → suc (steps_left e') ≡ steps_left e
unfolding steps_left
Step-steps_left (signals e alive new) = simp new (omega arith)
Step-steps_left (stops e alive at_stop got) = simp at_stop (omega arith)
Step-steps_left (watcher_ends e alive is cancelled) = simp is (omega arith)
Step-steps_left (watcher_closes e alive is) =
    let same = close_exit_chan-steps_left (record e { watcher = closed }) in
    rw same (simp is (omega arith))
Step-steps_left (manager_ends e alive is) = simp is (omega arith)
Step-steps_left (manager_closes e alive is) =
    let same = close_exit_chan-steps_left (record e { manager = closed }) in
    rw same (simp is (omega arith))
Step-steps_left (main_returns e alive at_exit exit_closed) = simp at_exit (omega arith)

Steps-steps_left : {n : ℕ} {e e' : Ending} → Steps n e e' → n + steps_left e' ≡ steps_left e
Steps-steps_left (nothing e) = omega arith
Steps-steps_left (followed n e e' e'' step more) =
    let first = Step-steps_left step in let rest = Steps-steps_left more in omega arith

-- The function has returned or the process has panicked.
abbrev pub IsOver : Ending → Type 0
IsOver e = (e.phase ≡ returned) ⊎ (e.panicked ≡ true)

pub Closer-cases : (c : Closer) → (c ≡ runs) ⊎ (c ≡ ended) ⊎ (c ≡ closed)
Closer-cases runs = inl refl
Closer-cases ended = inr (inl refl)
Closer-cases closed = inr (inr refl)

MainPhase-cases : (p : MainPhase) → (p ≡ at_stop_chan) ⊎ (p ≡ at_exit_chan) ⊎ (p ≡ returned)
MainPhase-cases at_stop_chan = inl refl
MainPhase-cases at_exit_chan = inr (inl refl)
MainPhase-cases returned = inr (inr refl)

waiting_goes_on :
    (e : Ending)
    → IsSound e
    → e.panicked ≡ false
    → e.phase ≡ at_exit_chan
    → (e' : Ending) × Step e e'
waiting_goes_on e sound calm at_exit =
    let alive : IsAlive e = (calm, λ h. cc (h, at_exit)) in
    let cancelled = sound.waits_cancelled (λ h. cc (h, at_exit)) in
    elim (Closer-cases e.watcher) [
      | inl is ↦ (_, watcher_ends e alive is cancelled)
      | inr (inl is) ↦ (_, watcher_closes e alive is)
      | inr (inr is) ↦ (_, main_returns e alive at_exit (sound.watcher_closed is))
    ]

goes_on : (e : Ending) → IsSound e → e.signalled ≡ true → IsOver e ⊎ ((e' : Ending) × Step e e')
goes_on e sound signalled = elim (Bool-cases e.panicked) [
  | inl panicked ↦ inl (inr panicked)
  | inr calm ↦ elim (MainPhase-cases e.phase) [
    | inl at_stop ↦ inr (_, stops e (calm, λ h. cc (h, at_stop)) at_stop signalled)
    | inr (inl at_exit) ↦ inr (waiting_goes_on e sound calm at_exit)
    | inr (inr back) ↦ inl (inl back)
  ]
]

-- If WatchForEvents returns whenever it is told to, the end of `run` comes: at most seven steps are
-- taken after the start, whatever their order, and once a signal has come another step is possible
-- until the function has returned or the process has panicked.
pub ending_terminates :
    (n : ℕ) (e : Ending)
    → Steps n started e
    → (n ≤ 7) × (e.signalled ≡ true → IsOver e ⊎ ((e' : Ending) × Step e e'))
ending_terminates n e more =
    let count : n + steps_left e ≡ 7 = Steps-steps_left more ∙ unfold steps_left in refl in
    (omega arith, λ signalled. goes_on e (reached-IsSound more) signalled)
