-- ===== src/ServiceRegistry/Registry/Places.antt =====
-- Which places of the registry are one, and which lie under which, as Boolean tests.
use cnwan_operator.Common.{
  text_laws, Bool, true, false, ◌≡◌, ◌≢◌, ◌↔◌, ◌&&◌, inl, inr, ◌==◌, Bool-cases,
}
use cnwan_operator.ServiceRegistry.Registry.{Place, in_namespace, in_service, in_endpoint, IsUnder}

unfoldable pub place_eq : Place → Place → Bool
place_eq (in_namespace n) (in_namespace n') = n == n'
place_eq (in_service n s) (in_service n' s') = n == n' && s == s'
place_eq (in_endpoint n s e) (in_endpoint n' s' e') = n == n' && s == s' && e == e'
place_eq _ _ = false

pub place_eq_iff : (p q : Place) → (place_eq p q ≡ true) ↔ (p ≡ q)
unfolding place_eq
place_eq_iff (in_namespace n) (in_namespace n') = grind text_laws
place_eq_iff (in_service n s) (in_service n' s') = grind text_laws
place_eq_iff (in_endpoint n s e) (in_endpoint n' s' e') = grind text_laws
place_eq_iff _ _ = (λ h. cc, λ h. cc)

unfoldable pub is_under : Place → Place → Bool
is_under (in_namespace n) (in_service n' s) = n == n'
is_under (in_namespace n) (in_endpoint n' s e) = n == n'
is_under (in_service n s) (in_endpoint n' s' e) = n == n' && s == s'
is_under _ _ = false

pub is_under_iff : (p q : Place) → (is_under p q ≡ true) ↔ IsUnder p q
unfolding is_under
is_under_iff (in_namespace n) (in_namespace n') = (λ h. cc h, λ h. absurd h)
is_under_iff (in_namespace n) (in_service n' s) = grind text_laws
is_under_iff (in_namespace n) (in_endpoint n' s e) = grind text_laws
is_under_iff (in_service n s) (in_namespace n') = (λ h. cc h, λ h. absurd h)
is_under_iff (in_service n s) (in_service n' s') = (λ h. cc h, λ h. absurd h)
is_under_iff (in_service n s) (in_endpoint n' s' e) = grind text_laws
is_under_iff (in_endpoint n s e) (in_namespace n') = (λ h. cc h, λ h. absurd h)
is_under_iff (in_endpoint n s e) (in_service n' s') = (λ h. cc h, λ h. absurd h)
is_under_iff (in_endpoint n s e) (in_endpoint n' s' e') = (λ h. cc h, λ h. absurd h)

pub place_eq_ne : (p q : Place) → p ≢ q → place_eq p q ≡ false
place_eq_ne p q other = elim (Bool-cases (place_eq p q)) [
  | inl same ↦ absurd (other ((place_eq_iff p q).0 same))
  | inr e ↦ e
]
