-- ===== src/Common/Text/Cut.antt =====
-- Where `cut_last` cuts.
use Prim.Native.Char.{Char}
use Prim.Native.String
use Prim.Native.String.{String, [], ◌∷◌}
use mathlib.Core.Path.{◌≡◌, refl}
use mathlib.Core.Option.{none, some}
use text.Mathlib.TextLemmas.{nil-append, cons-append}
use cnwan_operator.Common.Text.{cut_last}
use cnwan_operator.Common.Text.Split.{IsFree, is_char_refl}

pub cut_last_of_IsFree : (s : String) (sep : Char) → IsFree sep s → cut_last s sep ≡ none
unfolding cut_last
cut_last_of_IsFree [] sep h = refl
cut_last_of_IsFree (c ∷ s) sep (e, h) = rw (cut_last_of_IsFree s sep h, e) refl

-- The last separator is the one after which there is no other.
pub cut_last-append :
    (before after : String) (sep : Char)
    → IsFree sep after
    → cut_last (String.◌++◌ before (sep ∷ after)) sep ≡ some (before, after)
unfolding cut_last
cut_last-append [] after sep h =
    rw (nil-append, cut_last_of_IsFree after sep h, is_char_refl sep) refl
cut_last-append (c ∷ before) after sep h =
    rw (cons-append, cut_last-append before after sep h, cut_last) refl
