-- ===== src/Operator/Ending/Sound.antt =====
-- What holds while `run` ends.
use cnwan_operator.Common.{ℕ, true, false, ◌≡◌, ◌≢◌, ◌⊎◌, refl, inl, inr, Bool-cases}
use cnwan_operator.Operator.Ending.{
  Ending, at_stop_chan, returned, runs, ended, closed, started, close_exit_chan, Step, signals,
  stops, watcher_ends, watcher_closes, manager_ends, manager_closes, main_returns, Steps, nothing,
  followed,
}

pub record IsSound (e : Ending) : Type 0 where
  pub waits_cancelled : e.phase ≢ at_stop_chan → e.watch_cancelled ≡ true
  pub watcher_cancelled : e.watcher ≢ runs → e.watch_cancelled ≡ true
  pub watcher_closed : e.watcher ≡ closed → e.exit_closed ≡ true
  pub manager_closed : e.manager ≡ closed → e.exit_closed ≡ true
  pub somebody_closed : e.exit_closed ≡ true → (e.watcher ≡ closed) ⊎ (e.manager ≡ closed)
  pub both_closed : e.panicked ≡ true → (e.watcher ≡ closed) × (e.manager ≡ closed)
  pub unsignalled : e.signalled ≡ false → (e.phase ≡ at_stop_chan) × (e.watch_cancelled ≡ false)
  pub returned_closed : e.phase ≡ returned → e.exit_closed ≡ true

started-IsSound : IsSound started
started-IsSound = record {
  waits_cancelled = λ h. absurd (h refl);
  watcher_cancelled = λ h. absurd (h refl);
  watcher_closed = λ h. cc h;
  manager_closed = λ h. cc h;
  somebody_closed = λ h. cc h;
  both_closed = λ h. cc h;
  unsignalled = λ h. (refl, refl);
  returned_closed = λ h. cc h;
}

watcher_closes-IsSound :
    (e : Ending)
    → e.panicked ≡ false
    → e.phase ≢ returned
    → e.watcher ≡ ended
    → IsSound e
    → IsSound (close_exit_chan (record e { watcher = closed }))
unfolding close_exit_chan
watcher_closes-IsSound e calm there is s =
    let cancelled : e.watch_cancelled ≡ true = s.watcher_cancelled (λ h. cc (h, is)) in
    elim (Bool-cases e.exit_closed) [
      | inl already ↦
          let by_manager : e.manager ≡ closed = elim (s.somebody_closed already) [
            | inl h ↦ cc (h, is)
            | inr h ↦ h
          ] in
          simp already (record {
            waits_cancelled = λ h. cancelled;
            watcher_cancelled = λ h. cancelled;
            watcher_closed = λ h. refl;
            manager_closed = λ h. refl;
            somebody_closed = λ h. inl refl;
            both_closed = λ h. (refl, by_manager);
            unsignalled = s.unsignalled;
            returned_closed = λ h. refl;
          })
      | inr open_yet ↦ simp open_yet (record {
        waits_cancelled = λ h. cancelled;
        watcher_cancelled = λ h. cancelled;
        watcher_closed = λ h. refl;
        manager_closed = λ h. refl;
        somebody_closed = λ h. inl refl;
        both_closed = λ h. cc (h, calm);
        unsignalled = s.unsignalled;
        returned_closed = λ h. refl;
      })
    ]

manager_closes-IsSound :
    (e : Ending)
    → e.panicked ≡ false
    → e.manager ≡ ended
    → IsSound e
    → IsSound (close_exit_chan (record e { manager = closed }))
unfolding close_exit_chan
manager_closes-IsSound e calm is s = elim (Bool-cases e.exit_closed) [
  | inl already ↦
      let by_watcher : e.watcher ≡ closed = elim (s.somebody_closed already) [
        | inl h ↦ h
        | inr h ↦ cc (h, is)
      ] in
      simp already (record {
        waits_cancelled = s.waits_cancelled;
        watcher_cancelled = s.watcher_cancelled;
        watcher_closed = λ h. refl;
        manager_closed = λ h. refl;
        somebody_closed = λ h. inr refl;
        both_closed = λ h. (by_watcher, refl);
        unsignalled = s.unsignalled;
        returned_closed = λ h. refl;
      })
  | inr open_yet ↦ simp open_yet (record {
    waits_cancelled = s.waits_cancelled;
    watcher_cancelled = s.watcher_cancelled;
    watcher_closed = λ h. refl;
    manager_closed = λ h. refl;
    somebody_closed = λ h. inr refl;
    both_closed = λ h. cc (h, calm);
    unsignalled = s.unsignalled;
    returned_closed = λ h. refl;
  })
]

Step-IsSound : {e e' : Ending} → Step e e' → IsSound e → IsSound e'
Step-IsSound (signals e alive new) s = record {
  waits_cancelled = s.waits_cancelled;
  watcher_cancelled = s.watcher_cancelled;
  watcher_closed = s.watcher_closed;
  manager_closed = s.manager_closed;
  somebody_closed = s.somebody_closed;
  both_closed = s.both_closed;
  unsignalled = λ h. cc h;
  returned_closed = s.returned_closed;
}
Step-IsSound (stops e alive at_stop got) s = record {
  waits_cancelled = λ h. refl;
  watcher_cancelled = λ h. refl;
  watcher_closed = s.watcher_closed;
  manager_closed = s.manager_closed;
  somebody_closed = s.somebody_closed;
  both_closed = s.both_closed;
  unsignalled = λ h. cc (h, got);
  returned_closed = λ h. cc h;
}
Step-IsSound (watcher_ends e alive is cancelled) s = record {
  waits_cancelled = s.waits_cancelled;
  watcher_cancelled = λ h. cancelled;
  watcher_closed = λ h. cc h;
  manager_closed = s.manager_closed;
  somebody_closed = λ h. elim (s.somebody_closed h) [ inl c ↦ cc (c, is) | inr c ↦ inr c ];
  both_closed = λ h. cc (h, alive.0);
  unsignalled = s.unsignalled;
  returned_closed = s.returned_closed;
}
Step-IsSound (watcher_closes e alive is) s = watcher_closes-IsSound e alive.0 alive.1 is s
Step-IsSound (manager_ends e alive is) s = record {
  waits_cancelled = s.waits_cancelled;
  watcher_cancelled = s.watcher_cancelled;
  watcher_closed = s.watcher_closed;
  manager_closed = λ h. cc h;
  somebody_closed = λ h. elim (s.somebody_closed h) [ inl c ↦ inl c | inr c ↦ cc (c, is) ];
  both_closed = λ h. cc (h, alive.0);
  unsignalled = s.unsignalled;
  returned_closed = s.returned_closed;
}
Step-IsSound (manager_closes e alive is) s = manager_closes-IsSound e alive.0 is s
Step-IsSound (main_returns e alive at_exit exit_closed) s = record {
  waits_cancelled = λ h. s.waits_cancelled (λ here. cc (here, at_exit));
  watcher_cancelled = s.watcher_cancelled;
  watcher_closed = s.watcher_closed;
  manager_closed = s.manager_closed;
  somebody_closed = s.somebody_closed;
  both_closed = s.both_closed;
  unsignalled = λ h. cc ((s.unsignalled h).0, at_exit);
  returned_closed = λ h. exit_closed;
}

Steps-IsSound : {n : ℕ} {e e' : Ending} → Steps n e e' → IsSound e → IsSound e'
Steps-IsSound (nothing e) s = s
Steps-IsSound (followed n e e' e'' step more) s = Steps-IsSound more (Step-IsSound step s)

-- What may come of a start.
pub reached-IsSound : {n : ℕ} {e : Ending} → Steps n started e → IsSound e
reached-IsSound more = Steps-IsSound more started-IsSound
