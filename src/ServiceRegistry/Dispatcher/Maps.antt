-- ===== src/ServiceRegistry/Dispatcher/Maps.antt =====
-- The map of workers under the operations of the dispatcher: what holds of all workers in it, and how
-- many of them run.
use cnwan_operator.Common.{
  ℕ, ◌+◌, String, false, some, List, [], ◌∷◌, ◌++◌, ◌≡◌, refl, arith, ◌==◌, eq_iff, Bool-cases, inl,
  inr, All,
}
use cnwan_operator.GoMap.{Map, get, has, put, HasDistinctKeys}
use cnwan_operator.ServiceRegistry.Dispatcher.{
  Worker, cancel, is_idle, keep_busy, stop_idle, cancel_all,
}
use cnwan_operator.ServiceRegistry.Dispatcher.Workers.{running}

module _ (P : String × Worker → Type 0) where
  pub put-All : (k : String) (w : Worker) (m : Map Worker) → P (k, w) → All P m → All P (put k w m)
  unfolding put
  put-All k w [] p h = (p, tt)
  put-All k w ((j, v) ∷ m) p (q, h) = elim (Bool-cases (j == k)) [
    | inl same ↦ rw same (p, h)
    | inr other ↦ rw other (q, put-All k w m p h)
  ]

  pub get-All : (k : String) (w : Worker) (m : Map Worker) → All P m → get k m ≡ some w → P (k, w)
  unfolding get
  get-All k w [] h e = cc
  get-All k w ((j, v) ∷ m) (q, h) e = elim (Bool-cases (j == k)) [
    | inl same ↦
        let key : j ≡ k = (eq_iff j k).0 same in
        let value : v ≡ w = ground arith in rw (← key, ← value) q
    | inr other ↦ get-All k w m h (ground arith)
  ]

  pub keep_busy-All : (now : ℕ) (m : Map Worker) → All P m → All P (keep_busy now m)
  unfolding keep_busy
  keep_busy-All now [] h = tt
  keep_busy-All now ((k, w) ∷ m) (p, h) = elim (Bool-cases (is_idle now w)) [
    | inl idle ↦ rw idle (keep_busy-All now m h)
    | inr busy ↦ rw busy (p, keep_busy-All now m h)
  ]

  pub cancel_all-All :
      ((k : String) (w : Worker) → P (k, w) → P (k, cancel w))
      → (m : Map Worker) → All P m
      → All P (cancel_all m)
  unfolding cancel_all
  cancel_all-All f [] h = tt
  cancel_all-All f ((k, w) ∷ m) (p, h) = (f k w p, cancel_all-All f m h)

  pub stop_idle-All :
      (Q : Worker → Type 0)
      → ((k : String) (w : Worker) → P (k, w) → Q (cancel w))
      → (now : ℕ) (m : Map Worker) → All P m
      → All Q (stop_idle now m)
  unfolding stop_idle
  stop_idle-All Q f now [] h = tt
  stop_idle-All Q f now ((k, w) ∷ m) (p, h) = elim (Bool-cases (is_idle now w)) [
    | inl idle ↦ rw idle (f k w p, stop_idle-All Q f now m h)
    | inr busy ↦ rw busy (stop_idle-All Q f now m h)
  ]

keep_busy-has :
    (k : String) (now : ℕ) (m : Map Worker) → has k m ≡ false → has k (keep_busy now m) ≡ false
unfolding keep_busy has
keep_busy-has k now [] h = refl
keep_busy-has k now ((j, w) ∷ m) h = ground (arith, keep_busy-has k now m)

pub keep_busy-HasDistinctKeys :
    (now : ℕ) (m : Map Worker) → HasDistinctKeys m → HasDistinctKeys (keep_busy now m)
unfolding keep_busy
keep_busy-HasDistinctKeys now [] h = tt
keep_busy-HasDistinctKeys now ((k, w) ∷ m) (fresh, h) = elim (Bool-cases (is_idle now w)) [
  | inl idle ↦ rw idle (keep_busy-HasDistinctKeys now m h)
  | inr busy ↦ rw busy (keep_busy-has k now m fresh, keep_busy-HasDistinctKeys now m h)
]

cancel_all-has : (k : String) (m : Map Worker) → has k (cancel_all m) ≡ has k m
unfolding cancel_all has
cancel_all-has k [] = refl
cancel_all-has k ((j, w) ∷ m) = ground (arith, cancel_all-has k m)

pub cancel_all-HasDistinctKeys :
    (m : Map Worker) → HasDistinctKeys m → HasDistinctKeys (cancel_all m)
unfolding cancel_all
cancel_all-HasDistinctKeys [] h = tt
cancel_all-HasDistinctKeys ((k, w) ∷ m) (fresh, h) =
    (rw (cancel_all-has k m) fresh, cancel_all-HasDistinctKeys m h)

unfoldable pub running_of : List Worker → ℕ
running_of [] = 0
running_of (w ∷ ws) = running w + running_of ws

unfoldable pub running_in : Map Worker → ℕ
running_in [] = 0
running_in ((k, w) ∷ m) = running w + running_in m

pub running_of-append :
    (before later : List Worker)
    → running_of (before ++ later) ≡ running_of before + running_of later
unfolding running_of
running_of-append [] later = omega arith
running_of-append (w ∷ before) later = omega (arith, running_of-append before later)

pub running_of-replaced :
    (before : List Worker) (w w' : Worker) (later : List Worker)
    → running_of (before ++ w' ∷ later) + running w ≡ running_of (before ++ w ∷ later) + running w'
unfolding running_of
running_of-replaced before w w' later =
    omega (arith, running_of-append before (w ∷ later), running_of-append before (w' ∷ later))

pub running_in-put :
    (k : String) (w w' : Worker) (m : Map Worker)
    → get k m ≡ some w
    → running_in (put k w' m) + running w ≡ running_in m + running w'
unfolding get put running_in
running_in-put k w w' [] e = cc
running_in-put k w w' ((j, v) ∷ m) e = elim (Bool-cases (j == k)) [
  | inl same ↦ let value : v ≡ w = ground arith in rw (same, value) (omega arith)
  | inr other ↦ let below = running_in-put k w w' m (ground arith) in rw other (omega arith)
]

pub running_in-put_new :
    (k : String) (w : Worker) (m : Map Worker)
    → has k m ≡ false
    → running_in (put k w m) ≡ running_in m + running w
unfolding has put running_in
running_in-put_new k w [] h = omega arith
running_in-put_new k w ((j, v) ∷ m) h = elim (Bool-cases (j == k)) [
  | inl same ↦ absurd (ground arith)
  | inr other ↦ let below = running_in-put_new k w m (ground arith) in rw other (omega arith)
]

-- The clean-up neither starts nor ends a goroutine.
pub running_in-keep_busy :
    (now : ℕ) (m : Map Worker)
    → running_in (keep_busy now m) + running_of (stop_idle now m) ≡ running_in m
unfolding keep_busy stop_idle running_in running_of
running_in-keep_busy now [] = refl
running_in-keep_busy now ((k, w) ∷ m) =
    let below = running_in-keep_busy now m in
    elim (Bool-cases (is_idle now w)) [
      | inl idle ↦ rw idle (omega arith)
      | inr busy ↦ rw busy (omega arith)
    ]

pub running_in-cancel_all : (m : Map Worker) → running_in (cancel_all m) ≡ running_in m
unfolding cancel_all running_in
running_in-cancel_all [] = refl
running_in-cancel_all ((k, w) ∷ m) = omega (arith, running_in-cancel_all m)
