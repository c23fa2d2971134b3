-- ===== src/Common/Text/Split.antt =====
-- What `split` returns: parts without the separator, which joined again give the text back.
use Prim.Native.Char.{Char}
use Prim.Native.String
use Prim.Native.String.{String, [], ◌∷◌}
use mathlib.Core.Path.{◌≡◌, refl, sym, ap, ◌∙◌}
use mathlib.Core.Logic.{inl, inr}
use mathlib.Core.Bool.{true, false}
use mathlib.Core.List.{List, [], ◌∷◌}
use native.Mathlib.Omega.{arith}
use text.Mathlib.TextEquality.{Char-path}
use text.Mathlib.TextLemmas.{nil-append, cons-append}
use cnwan_operator.Common.Tests.{Bool-cases}
use cnwan_operator.Common.Lists.{All}
use cnwan_operator.Common.Text.{is_char, onto_first, split}

-- The text does not hold the character.
abbrev pub IsFree : Char → String → Type 0
IsFree sep [] = Unit
IsFree sep (c ∷ s) = (is_char c sep ≡ false) × IsFree sep s

abbrev pub join : Char → List String → String
join sep [] = []
join sep (p ∷ []) = p
join sep (p ∷ q ∷ ps) = String.◌++◌ p (sep ∷ join sep (q ∷ ps))

pub is_char-eq : (c d : Char) → is_char c d ≡ true → c ≡ d
is_char-eq c d h = Char-path c d (ground arith)

pub is_char_refl : (c : Char) → is_char c c ≡ true
is_char_refl c = ground arith

split-cons : (s : String) (sep : Char) → (p : String) × (ps : List String) × (split s sep ≡ p ∷ ps)
unfolding split
split-cons [] sep = ([], [], refl)
split-cons (c ∷ s) sep = elim (Bool-cases (is_char c sep)) [
  | inl e ↦ ([], split s sep, rw e refl)
  | inr e ↦ let (p, ps, q) = split-cons s sep in (c ∷ p, ps, rw (e, q) refl)
]

join-onto_first :
    (c sep : Char) (p : String) (ps : List String)
    → join sep (onto_first c (p ∷ ps)) ≡ c ∷ join sep (p ∷ ps)
join-onto_first c sep p [] = refl
join-onto_first c sep p (q ∷ ps) = cons-append c p (sep ∷ join sep (q ∷ ps))

pub join-split : (s : String) (sep : Char) → join sep (split s sep) ≡ s
unfolding split
join-split [] sep = refl
join-split (c ∷ s) sep = elim (Bool-cases (is_char c sep)) [
  | inl e ↦
      let (p, ps, q) = split-cons s sep in
      let ih : join sep (p ∷ ps) ≡ s = rw q at (join-split s sep) in
      rw (e, q) (nil-append _ ∙ ap (λ t. sep ∷ t) ih ∙ ap (λ d. d ∷ s) (sym (is_char-eq c sep e)))
  | inr e ↦
      let (p, ps, q) = split-cons s sep in
      let ih : join sep (p ∷ ps) ≡ s = rw q at (join-split s sep) in
      rw (e, q) (join-onto_first c sep p ps ∙ ap (λ t. c ∷ t) ih)
]

-- A part in front of the first separator is the first part.
pub split-append :
    (p s : String) (sep : Char)
    → IsFree sep p
    → split (String.◌++◌ p (sep ∷ s)) sep ≡ p ∷ split s sep
unfolding split
split-append [] s sep h = rw (nil-append, is_char_refl sep) refl
split-append (c ∷ p) s sep (e, h) = rw (cons-append, e, split-append p s sep h) refl

pub split_of_IsFree : (s : String) (sep : Char) → IsFree sep s → split s sep ≡ s ∷ []
unfolding split
split_of_IsFree [] sep h = refl
split_of_IsFree (c ∷ s) sep (e, h) = rw (e, split_of_IsFree s sep h) refl

onto_first-IsFree :
    (c sep : Char) (ps : List String)
    → is_char c sep ≡ false
    → All (IsFree sep) ps
    → All (IsFree sep) (onto_first c ps)
onto_first-IsFree c sep [] e h = ((e, tt), tt)
onto_first-IsFree c sep (p ∷ ps) e (q, h) = ((e, q), h)

pub split-IsFree : (s : String) (sep : Char) → All (IsFree sep) (split s sep)
unfolding split
split-IsFree [] sep = (tt, tt)
split-IsFree (c ∷ s) sep = elim (Bool-cases (is_char c sep)) [
  | inl e ↦ rw e (tt, split-IsFree s sep)
  | inr e ↦ rw e (onto_first-IsFree c sep (split s sep) e (split-IsFree s sep))
]
