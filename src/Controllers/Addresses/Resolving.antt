-- ===== src/Controllers/Addresses/Resolving.antt =====
-- How often a hostname is looked up, and what comes of it.
use cnwan_operator.Common.{
  ℕ, zero, suc, ◌+◌, ◌<◌, String, Option, none, some, List, ◌≡◌, ◌↔◌, arith, inl, inr,
}
use cnwan_operator.Common.Result.{ok, IsErr, Result-cases}
use cnwan_operator.Controllers.Addresses.{Resolver, try_from, try_resolve_hostnames}
use native.Mathlib.Nat.{add-zero}

module _ (lookup_host : Resolver) (host : String) where
  -- The k-th attempt is the first that is answered.
  abbrev pub FirstAnswer : ℕ → ℕ → List String → Type 0
  FirstAnswer calls k ips =
      (lookup_host (calls + k) host ≡ ok ips)
      × ((j : ℕ) → j < k → IsErr (lookup_host (calls + j) host))

  FirstAnswer-step :
      (calls k : ℕ) (ips : List String)
      → IsErr (lookup_host calls host)
      → FirstAnswer (calls + 1) k ips
      → FirstAnswer calls (suc k) ips
  FirstAnswer-step calls k ips failed (answer, before) = (rw shift answer, λ j lt. earlier j lt)
    where
      shift : calls + suc k ≡ calls + 1 + k
      shift = omega arith

      earlier : (j : ℕ) → j < suc k → IsErr (lookup_host (calls + j) host)
      earlier zero lt = rw add-zero failed
      earlier (suc j) lt =
          let e : calls + suc j ≡ calls + 1 + j = omega arith in rw e (before j (omega arith))

  next_call : (calls k : ℕ) → calls + 1 + k ≡ calls + suc k
  next_call calls k = omega arith

  FirstAnswer-pred :
      (calls k : ℕ) (ips : List String)
      → FirstAnswer calls (suc k) ips
      → FirstAnswer (calls + 1) k ips
  FirstAnswer-pred calls k ips (answer, before) =
      (rw next_call answer, λ j lt. rw next_call (before (suc j) (omega arith)))

  -- An answer is the first one, and comes within the attempts.
  try_from-FirstAnswer :
      (calls left : ℕ) (last : Option String) (ips : List String) (after : ℕ)
      → try_from lookup_host host calls left last ≡ (ok ips, after)
      → (k : ℕ) × (k < left) × FirstAnswer calls k ips × (after ≡ calls + k + 1)
  unfolding try_from
  try_from-FirstAnswer calls zero last ips after h = cc
  try_from-FirstAnswer calls (suc left) last ips after h =
      elim (Result-cases (lookup_host calls host)) [
        | inl (a, e) ↦ (
          0,
          omega arith,
          (rw add-zero (ground arith), λ j lt. absurd (omega arith)),
          ground arith,
        )
        | inr (e, q) ↦
            let (k, lt, first, same) =
              try_from-FirstAnswer (calls + 1) left (some e) ips after (ground arith) in
            (suc k, omega arith, FirstAnswer-step calls k ips (e, q) first, omega arith)
      ]

  FirstAnswer-try_from :
      (calls k left : ℕ) (last : Option String) (ips : List String)
      → k < left
      → FirstAnswer calls k ips
      → try_from lookup_host host calls left last ≡ (ok ips, calls + k + 1)
  unfolding try_from
  FirstAnswer-try_from calls k zero last ips lt first = elim lt [ ]
  FirstAnswer-try_from calls zero (suc left) last ips lt (answer, before) =
      let now : lookup_host calls host ≡ ok ips = rw add-zero at answer in ground arith
  FirstAnswer-try_from calls (suc k) (suc left) last ips lt (answer, before) =
      let (e, failed) : IsErr (lookup_host calls host) = rw add-zero at (before 0 (omega arith)) in
      ground (
        arith,
        failed,
        FirstAnswer-try_from (calls + 1) k left (some e) ips (omega arith)
            (FirstAnswer-pred calls k ips (answer, before)),
      )

-- A hostname resolves exactly if one of the allowed attempts is answered; the first answer is taken,
-- no look-up is made after it, and all before it failed.
pub try_resolve_hostnames-FirstAnswer :
    (lookup_host : Resolver) (calls : ℕ) (host : String) (max_attempts : ℕ) (ips : List String)
    (after : ℕ)
    → (try_resolve_hostnames lookup_host calls host max_attempts ≡ (ok ips, after)) ↔ (
        (k : ℕ) × (k < max_attempts)
        × FirstAnswer lookup_host host calls k ips
        × (after ≡ calls + k + 1))
unfolding try_resolve_hostnames
try_resolve_hostnames-FirstAnswer lookup_host calls host max_attempts ips after = (
  try_from-FirstAnswer lookup_host host calls max_attempts none ips after,
  λ (k, lt, first, same).
      rw same (FirstAnswer-try_from lookup_host host calls k max_attempts none ips lt first),
)
