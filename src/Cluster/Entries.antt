-- ===== src/Cluster/Entries.antt =====
-- What is read of a secret and of the zone.
use Prim.Native.String
use cnwan_operator.Common.{String, [], ◌∷◌, ◌≡◌, ◌↔◌, refl}
use cnwan_operator.Common.Result.{ok, bind-eq-ok}
use cnwan_operator.Common.Text.{dash}
use cnwan_operator.Common.Text.Split.{IsFree}
use cnwan_operator.Common.Text.Cut.{cut_last-append}
use cnwan_operator.GoMap.{Map}
use cnwan_operator.Cluster.{
  Surroundings, only_entry, get_google_service_account_secret, get_operator_settings_config_map,
  get_gcp_region,
}

only_entry-eq-ok :
    (what : String) (m : Map String) (d : String)
    → only_entry what m ≡ ok d
    → (k : String) × (m ≡ (k, d) ∷ [])
only_entry-eq-ok what [] d h = cc h
only_entry-eq-ok what ((k, x) ∷ []) d h = let same : x ≡ d = cc h in (k, rw same refl)
only_entry-eq-ok what (e ∷ f ∷ m) d h = cc h

-- The service account of Google and the settings of the operator are read only where Kubernetes gives
-- data with exactly one entry, whatever its key, and they are that entry.
pub only_entries_lem :
    (at : Surroundings) (d : String)
    → ((get_google_service_account_secret at ≡ ok d)
        ↔ ((k : String) × (at.secret "google-service-account" ≡ ok ((k, d) ∷ []))))
      × ((get_operator_settings_config_map at ≡ ok d)
          ↔ ((k : String) × (at.config_map "cnwan-operator-settings" ≡ ok ((k, d) ∷ []))))
unfolding get_google_service_account_secret get_operator_settings_config_map
only_entries_lem at d = (
  (
    λ h.
        let (m, got, only) = bind-eq-ok (at.secret "google-service-account") _ h in
        let (k, is) =
          only_entry-eq-ok "secret cnwan-operator-system/google-service-account" m d only in
        (k, rw (← is) got),
    λ (k, got). rw got refl,
  ),
  (
    λ h.
        let (m, got, only) = bind-eq-ok (at.config_map "cnwan-operator-settings") _ h in
        let (k, is) =
          only_entry-eq-ok "configmap cnwan-operator-system/cnwan-operator-settings" m d only in
        (k, rw (← is) got),
    λ (k, got). rw got refl,
  ),
)

-- If the metadata server answers with a zone that ends in a dash and a part without a dash, the
-- region is all that comes before.
pub get_gcp_region-zone :
    (at : Surroundings) (region last : String)
    → IsFree dash last
    → at.zone ≡ ok (String.◌++◌ region (String.◌∷◌ dash last))
    → get_gcp_region at ≡ ok region
unfolding get_gcp_region
get_gcp_region-zone at region last free h = rw h (rw (cut_last-append region last dash free) refl)
