-- ===== src/Operator/Ending/Panics.antt =====
-- The exit channel is closed twice only if the manager has stopped by itself.
use cnwan_operator.Common.{ℕ, true, false, ◌≡◌, refl, inl, inr, Bool-cases}
use cnwan_operator.Operator.Ending.{
  Ending, at_exit_chan, returned, runs, ended, closed, started, close_exit_chan, signals, stops,
  watcher_ends, watcher_closes, Steps, nothing, followed,
}
use cnwan_operator.Operator.Ending.Sound.{reached-IsSound}
use cnwan_operator.Operator.Ending.Bounded.{Closer-cases}

ending_while_managed :
    (n : ℕ) (e : Ending)
    → Steps n started e
    → e.manager ≡ runs
    → (e.panicked ≡ false)
      × (e.phase ≡ returned → (e.watch_cancelled ≡ true) × (e.watcher ≡ closed))
ending_while_managed n e more managed =
    let sound = reached-IsSound more in
    (
      elim (Bool-cases e.panicked) [
        | inr calm ↦ calm
        | inl panicked ↦ cc (managed, (sound.both_closed panicked).1)
      ],
      λ back. (
        sound.waits_cancelled (λ h. cc (h, back)),
        elim (sound.somebody_closed (sound.returned_closed back)) [
          | inl by_watcher ↦ by_watcher
          | inr by_manager ↦ cc (by_manager, managed)
        ],
      ),
    )

ending_can_panic :
    (n : ℕ) (e : Ending)
    → Steps n started e
    → e.signalled ≡ false
    → e.manager ≡ closed
    → (e' : Ending) × Steps 4 e e' × (e'.panicked ≡ true)
unfolding close_exit_chan
ending_can_panic n e more unsignalled managed =
    let sound = reached-IsSound more in
    let (at_stop, not_cancelled) = sound.unsignalled unsignalled in
    let watching : e.watcher ≡ runs = elim (Closer-cases e.watcher) [
      | inl is ↦ is
      | inr (inl is) ↦ cc (sound.watcher_cancelled (λ h. cc (h, is)), not_cancelled)
      | inr (inr is) ↦ cc (sound.watcher_cancelled (λ h. cc (h, is)), not_cancelled)
    ] in
    let calm : e.panicked ≡ false = elim (Bool-cases e.panicked) [
      | inr calm ↦ calm
      | inl panicked ↦ cc ((sound.both_closed panicked).0, watching)
    ] in
    let e1 = record e { signalled = true } in
    let e2 = record e1 { phase = at_exit_chan; watch_cancelled = true } in
    let e3 = record e2 { watcher = ended } in
    (
      close_exit_chan (record e3 { watcher = closed }),
      followed 3 e e1 _ (signals e (calm, λ h. cc (h, at_stop)) unsignalled) (
          followed 2 e1 e2 _ (stops e1 (calm, λ h. cc (h, at_stop)) at_stop refl) (
            followed 1 e2 e3 _ (watcher_ends e2 (calm, λ h. cc h) watching refl)
              (followed 0 e3 _ _ (watcher_closes e3 (calm, λ h. cc h) refl) (nothing _)))),
      simp (sound.manager_closed managed) refl,
    )

-- As long as the manager runs the process does not panic, and when the function has returned the
-- watching was cancelled and WatchForEvents has returned. But if the manager has stopped by itself before
-- any signal, the process can panic: from every such state there are four steps after which the exit
-- channel is closed a second time.
pub ending_panics :
    (n : ℕ) (e : Ending)
    → Steps n started e
    → (e.manager ≡ runs
        → (e.panicked ≡ false)
          × (e.phase ≡ returned → (e.watch_cancelled ≡ true) × (e.watcher ≡ closed)))
      × (e.signalled ≡ false
          → e.manager ≡ closed
          → (e' : Ending) × Steps 4 e e' × (e'.panicked ≡ true))
ending_panics n e more = (
  λ managed. ending_while_managed n e more managed,
  λ unsignalled managed. ending_can_panic n e more unsignalled managed,
)
