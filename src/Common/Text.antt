-- ===== src/Common/Text.antt =====
-- The parts of Go's `strings` and `fmt` that the sources call, over the native `String`: `Split` at
-- a character, `LastIndex`, `ToLower` (of ASCII letters), `%d` and a slice from the start.
pub mod Split
pub mod Cut
pub mod Decimal
use Prim.Native.Nat.{ℕ, zero, suc, ◌+◌, ◌-◌, ◌<◌, ◌/◌, ◌%◌}
use Prim.Native.Char.{Char, char, code, nul}
use Prim.Native.String.{String, [], ◌∷◌}
use mathlib.Core.List.{List, [], ◌∷◌}
use mathlib.Core.Logic.{dite}
use mathlib.Core.WellFounded.{Acc}
use native.Mathlib.Decide.{dec_lt}
use native.Mathlib.Omega.{arith}
use mathlib.Core.Bool.{Bool, true, false, ◌&&◌}
use mathlib.Core.Option.{Option, none, some}
use cnwan_operator.Common.Tests.{nat_eq, leb, if◌then◌else◌}

abbrev pub slash : Char
slash = char 47 tt

abbrev pub dash : Char
dash = char 45 tt

abbrev pub is_char : Char → Char → Bool
is_char c d = nat_eq (code c) (code d)

-- The head of the first part takes one more character.
abbrev pub onto_first : Char → List String → List String
onto_first c [] = (c ∷ []) ∷ []
onto_first c (p ∷ ps) = (c ∷ p) ∷ ps

-- `strings.Split(s, sep)` for a separator of one character: never empty.
unfoldable pub split : String → Char → List String
split [] sep = [] ∷ []
split (c ∷ s) sep =
    let parts = split s sep in if is_char c sep then [] ∷ parts else onto_first c parts

-- `strings.LastIndex(s, sep)` followed by the slices before and after it.
unfoldable pub cut_last : String → Char → Option (String × String)
cut_last [] sep = none
cut_last (c ∷ s) sep = elim (cut_last s sep) [
  | some (before, after) ↦ some (c ∷ before, after)
  | none ↦ if is_char c sep then some ([], s) else none
]

-- `strings.ToLower` on the ASCII letters.
abbrev pub nth_char : List Char → ℕ → Char → Char
nth_char [] n c = c
nth_char (d ∷ ds) zero c = d
nth_char (d ∷ ds) (suc n) c = nth_char ds n c

abbrev pub chars : String → List Char
chars [] = []
chars (c ∷ s) = c ∷ chars s

pub lower_char : Char → Char
lower_char c =
    if leb 65 (code c) && leb (code c) 90
    then nth_char (chars "abcdefghijklmnopqrstuvwxyz") (code c - 65) c
    else c

unfoldable pub to_lower : String → String
unfolding lower_char
to_lower [] = []
to_lower (c ∷ s) = lower_char c ∷ to_lower s

-- `s[:n]` of an ASCII text that is long enough.
unfoldable pub first_chars : ℕ → String → String
first_chars zero s = []
first_chars (suc n) [] = []
first_chars (suc n) (c ∷ s) = c ∷ first_chars n s

acc_below : (k n : ℕ) → n < k → Acc ◌<◌ n
acc_below zero n h = absurd (omega arith)
acc_below (suc k) n h = Acc.intro n (λ m lt. acc_below k m (omega arith))

acc_of : (n : ℕ) → Acc ◌<◌ n
unfolding acc_below
acc_of n = acc_below (suc n) n (omega arith)

abbrev pub digit : ℕ → Char
digit d = nth_char (chars "0123456789") d nul

emit : (n : ℕ) → Acc ◌<◌ n → String → String
emit n (Acc.intro _ smaller) out =
    dite (dec_lt 9 n) (λ h. emit (n / 10) (smaller (n / 10) (omega arith)) (digit (n % 10) ∷ out))
      (λ _. digit n ∷ out)

-- `%d` of a number that is not negative.
unfoldable pub decimal : ℕ → String
unfolding emit acc_of dec_lt
decimal n = emit n (acc_of n) []
