-- ===== src/Controllers/Check/Names.antt =====
-- The names of a service's endpoints.
use Prim.Native.Char.{Char, char}
use text.Mathlib.TextLemmas.{append_cancel_left, cons-append, nil-append}
use mathlib.Core.Option.{some-injective}
use cnwan_operator.Common.{ℕ, String, some, ◌≡◌, ◌∙◌, sym, ap, arith, ◌↔◌}
use cnwan_operator.Common.Text.{cut_last, decimal, first_chars}
use cnwan_operator.Common.Text.Cut.{cut_last-append}
use cnwan_operator.Common.Text.Decimal.{decimal_injective, decimal-IsFree}
use cnwan_operator.GoMap.{Map}
use cnwan_operator.Controllers.Objects.{KubeService}
use cnwan_operator.Controllers.Check.{to_be_hashed, make_endpoint}

abbrev colon : Char
colon = char 58 tt

cut_last-to_be_hashed :
    (ip : String) (port : ℕ) → cut_last (to_be_hashed ip port) colon ≡ some (ip, decimal port)
unfolding to_be_hashed
cut_last-to_be_hashed ip port =
    rw (cons-append, nil-append)
      (cut_last-append ip (decimal port) colon (decimal-IsFree port colon (omega arith)))

-- Which address and which port were hashed can be read back from the text, whatever the address.
pub to_be_hashed_injective :
    (ip ip' : String) (port port' : ℕ)
    → to_be_hashed ip port ≡ to_be_hashed ip' port'
    → (ip ≡ ip') × (port ≡ port')
to_be_hashed_injective ip ip' port port' e =
    let both : ◌≡◌ {A = String × String} (ip, decimal port) (ip', decimal port') =
      some-injective _ _ (
        sym (cut_last-to_be_hashed ip port)
        ∙ ap (λ s. cut_last s colon) e
        ∙ cut_last-to_be_hashed ip' port') in
    (
      ap (λ (p : String × String). p.0) both,
      decimal_injective port port' (ap (λ (p : String × String). p.1) both),
    )

-- If the first ten digits of the two hashes agree only where the hashed texts do, two endpoints of
-- one service have the same name exactly when they have the same address and port.
pub make_endpoint-name :
    (sha256_hex : String → String) (service : KubeService) (annotations : Map String)
    (port port' : ℕ) (ip ip' : String)
    → (first_chars 10 (sha256_hex (to_be_hashed ip port))
          ≡ first_chars 10 (sha256_hex (to_be_hashed ip' port'))
        → to_be_hashed ip port ≡ to_be_hashed ip' port')
    → ((make_endpoint sha256_hex service annotations port ip).name
        ≡ (make_endpoint sha256_hex service annotations port' ip').name)
      ↔ ((ip ≡ ip') × (port ≡ port'))
unfolding make_endpoint
make_endpoint-name sha256_hex service annotations port port' ip ip' apart = (
  λ e.
      to_be_hashed_injective ip ip' port port'
        (apart (append_cancel_left "-" _ _ (append_cancel_left service.name _ _ e))),
  λ h. cc,
)
