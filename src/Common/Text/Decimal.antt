-- ===== src/Common/Text/Decimal.antt =====
-- Decimal numerals can be read back, and hold digits only.
use Prim.Native.Nat.{ℕ, zero, suc, ◌+◌, ◌-◌, ◌*◌, ◌<◌, ◌/◌, ◌%◌}
use Prim.Native.Char.{Char, code}
use Prim.Native.String.{String, [], ◌∷◌}
use mathlib.Core.Path.{◌≡◌, refl, sym, ap, ◌∙◌}
use mathlib.Core.Bool.{false}
use mathlib.Core.WellFounded.{Acc}
use native.Mathlib.Omega.{arith}
use native.Mathlib.Bridge.{le_prop}
use native.Mathlib.Decide.{dec_lt}
use mathlib.Core.Logic.{dif_pos, dif_neg}
use cnwan_operator.Common.Text.{digit, emit, acc_of, decimal, is_char}
use cnwan_operator.Common.Text.Split.{IsFree}

-- The number that a numeral stands for, behind the digits read so far.
pub decode : String → ℕ → ℕ
decode [] n = n
decode (c ∷ s) n = decode s (n * 10 + (code c - 48))

code-digit : (d : ℕ) → d < 10 → code (digit d) ≡ 48 + d
code-digit zero h = refl
code-digit (suc zero) h = refl
code-digit (suc (suc zero)) h = refl
code-digit (suc (suc (suc zero))) h = refl
code-digit (suc (suc (suc (suc zero)))) h = refl
code-digit (suc (suc (suc (suc (suc zero))))) h = refl
code-digit (suc (suc (suc (suc (suc (suc zero)))))) h = refl
code-digit (suc (suc (suc (suc (suc (suc (suc zero))))))) h = refl
code-digit (suc (suc (suc (suc (suc (suc (suc (suc zero)))))))) h = refl
code-digit (suc (suc (suc (suc (suc (suc (suc (suc (suc zero))))))))) h = refl
code-digit (suc (suc (suc (suc (suc (suc (suc (suc (suc (suc d)))))))))) h = absurd (omega arith)

decode-emit : (n : ℕ) (w : Acc ◌<◌ n) (out : String) → decode (emit n w out) 0 ≡ decode out n
unfolding emit decode
decode-emit n (Acc.intro _ smaller) out = elim (dec_lt 9 n) [
  | yes big ↦ rw (dif_pos (dec_lt 9 n) le_prop big) (
      decode-emit (n / 10) (smaller (n / 10) _) (digit (n % 10) ∷ out)
      ∙ ap (decode out) (omega (arith, code-digit (n % 10) (omega arith))))
  | no small ↦
      rw (dif_neg (dec_lt 9 n) small) (ap (decode out) (omega (arith, code-digit n (omega arith))))
]

-- A numeral is read back as the number that was printed.
pub decode-decimal : (n : ℕ) → decode (decimal n) 0 ≡ n
unfolding decimal decode
decode-decimal n = decode-emit n (acc_of n) []

pub decimal_injective : (m n : ℕ) → decimal m ≡ decimal n → m ≡ n
decimal_injective m n e = sym (decode-decimal m) ∙ ap (λ s. decode s 0) e ∙ decode-decimal n

digit-is_char : (d : ℕ) (sep : Char) → d < 10 → 57 < code sep → is_char (digit d) sep ≡ false
digit-is_char d sep h k = let e = code-digit d h in ground arith

emit-IsFree :
    (n : ℕ) (w : Acc ◌<◌ n) (out : String) (sep : Char)
    → 57 < code sep
    → IsFree sep out
    → IsFree sep (emit n w out)
unfolding emit
emit-IsFree n (Acc.intro _ smaller) out sep k h = elim (dec_lt 9 n) [
  | yes big ↦ rw (dif_pos (dec_lt 9 n) le_prop big) (
      emit-IsFree (n / 10) (smaller (n / 10) _) (digit (n % 10) ∷ out) sep k
        (digit-is_char (n % 10) sep (omega arith) k, h))
  | no small ↦ rw (dif_neg (dec_lt 9 n) small) (digit-is_char n sep (omega arith) k, h)
]

-- A character above the digits does not stand in a numeral.
pub decimal-IsFree : (n : ℕ) (sep : Char) → 57 < code sep → IsFree sep (decimal n)
unfolding decimal
decimal-IsFree n sep k = emit-IsFree n (acc_of n) [] sep k tt
