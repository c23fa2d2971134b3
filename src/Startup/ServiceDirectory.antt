-- ===== src/Startup/ServiceDirectory.antt =====
-- Region and project of Google Service Directory.
use cnwan_operator.Common.{
  text_laws, String, false, not, ◌≡◌, ◌≢◌, ◌↔◌, ◌⊎◌, refl, sym, ap, arith, inl, inr, ◌==◌, ◌&&◌,
  eq_iff, Bool-cases,
}
use mathlib.Core.Path.{subst}
use cnwan_operator.Common.Result.{Result, ok, err, ◌>>=◌, wrap, bind-eq-ok}
use cnwan_operator.Settings.{ServiceDirectorySettings}
use cnwan_operator.Cluster.{
  ClusterManager, gke_cluster, eks_cluster, unknown_cluster, Surroundings, get_gcp_region,
}
use cnwan_operator.Startup.{or_ask, ask_cloud, parse_and_reset_gsd_settings}

-- The value is the given one; or nothing is given, the operator runs on GKE and is told the value there.
abbrev pub Settles : Surroundings → String → Result String → String → Type 0
Settles at given answer value =
    ((given ≢ "") × (value ≡ given))
    ⊎ ((given ≡ "") × (at.running_in ≡ gke_cluster) × (answer ≡ ok value))

ask_cloud-eq-ok :
    (c : ClusterManager) (asked : Result ServiceDirectorySettings) (d : ServiceDirectorySettings)
    → (ask_cloud c asked ≡ ok d) ↔ ((c ≡ gke_cluster) × (asked ≡ ok d))
ask_cloud-eq-ok gke_cluster asked d = (λ h. (refl, h), λ h. h.1)
ask_cloud-eq-ok eks_cluster asked d = (λ h. cc h, λ (h, _). cc h)
ask_cloud-eq-ok unknown_cluster asked d = (λ h. cc h, λ (h, _). cc h)

wrap-eq-ok :
    (prefix : String) (answer : Result String) (v : String)
    → (wrap prefix answer ≡ ok v) ↔ (answer ≡ ok v)
wrap-eq-ok prefix (ok x) v = (λ h. h, λ h. h)
wrap-eq-ok prefix (err e) v = (λ h. cc h, λ h. cc h)

or_ask-Settles :
    (at : Surroundings) (given prefix : String) (answer : Result String) (value : String)
    → at.running_in ≡ gke_cluster
    → (or_ask given (wrap prefix answer) ≡ ok value) ↔ Settles at given answer value
or_ask-Settles at given prefix answer value on_gke = elim (Bool-cases (given == "")) [
  | inl empty ↦
      let is_empty : given ≡ "" = (eq_iff given "").0 empty in
      rw empty (
        λ h. inr (is_empty, on_gke, (wrap-eq-ok prefix answer value).0 h),
        λ h. elim h [
          | inl (named, _) ↦ absurd (named is_empty)
          | inr (_, _, told) ↦ (wrap-eq-ok prefix answer value).1 told
        ],
      )
  | inr named ↦
      let is_named : given ≢ "" = grind text_laws in
      rw named (
        λ h. inl (is_named, ground arith),
        λ h. elim h [
          | inl (_, is) ↦ ap (λ s. ok s) (sym is)
          | inr (is_empty, _, _) ↦ absurd (is_named is_empty)
        ],
      )
]

Settles-gke :
    (at : Surroundings) (given : String) (answer : Result String) (value : String)
    → Settles at given answer value
    → (given ≢ "") ⊎ (at.running_in ≡ gke_cluster)
Settles-gke at given answer value (inl (named, _)) = inl named
Settles-gke at given answer value (inr (_, on_gke, _)) = inr on_gke

Settles-given :
    (at : Surroundings) (given : String) (answer : Result String) (value : String)
    → given ≢ ""
    → Settles at given answer value
    → value ≡ given
Settles-given at given answer value named (inl (_, is)) = is
Settles-given at given answer value named (inr (empty, _, _)) = absurd (named empty)

-- One of the two values is missing, so the operator runs on GKE if both are settled.
on_gke_of :
    (at : Surroundings) (given given' : String)
    → (not (given == "") && not (given' == "")) ≡ false
    → (given ≢ "") ⊎ (at.running_in ≡ gke_cluster)
    → (given' ≢ "") ⊎ (at.running_in ≡ gke_cluster)
    → at.running_in ≡ gke_cluster
on_gke_of at given given' missing (inr on_gke) _ = on_gke
on_gke_of at given given' missing (inl named) (inr on_gke) = on_gke
on_gke_of at given given' missing (inl named) (inl named') = absurd (grind text_laws)

abbrev asked : Surroundings → ServiceDirectorySettings → Result ServiceDirectorySettings
asked at gc =
    or_ask gc.default_region (wrap "could not get region from GCP: " (get_gcp_region at))
    >>= λ region.
        or_ask gc.project_id (wrap "could not get project ID from GCP: " at.project_id)
        >>= λ project_id. ok (record { default_region = region; project_id = project_id })

abbrev AreSettled : Surroundings → (gc d : ServiceDirectorySettings) → Type 0
AreSettled at gc d =
    Settles at gc.default_region (get_gcp_region at) d.default_region
    × Settles at gc.project_id at.project_id d.project_id

asked-AreSettled :
    (at : Surroundings) (gc d : ServiceDirectorySettings)
    → at.running_in ≡ gke_cluster
    → asked at gc ≡ ok d
    → AreSettled at gc d
asked-AreSettled at gc d on_gke h =
    let (region, region_ok, rest) =
      bind-eq-ok
        (or_ask gc.default_region (wrap "could not get region from GCP: " (get_gcp_region at))) _
        h in
    let (project, project_ok, ends) =
      bind-eq-ok (or_ask gc.project_id (wrap "could not get project ID from GCP: " at.project_id)) _
        rest in
    let is : record { default_region = region; project_id = project } ≡ d = cc ends in
    subst (AreSettled at gc) is (
      (or_ask-Settles at gc.default_region _ (get_gcp_region at) region on_gke).0 region_ok,
      (or_ask-Settles at gc.project_id _ at.project_id project on_gke).0 project_ok,
    )

AreSettled-asked :
    (at : Surroundings) (gc d : ServiceDirectorySettings)
    → at.running_in ≡ gke_cluster
    → AreSettled at gc d
    → asked at gc ≡ ok d
AreSettled-asked at gc d on_gke (a, b) =
    rw
      ((or_ask-Settles at gc.default_region "could not get region from GCP: " (get_gcp_region at)
          d.default_region on_gke).1
        a)
      (rw
        ((or_ask-Settles at gc.project_id "could not get project ID from GCP: " at.project_id
            d.project_id on_gke).1
          b)
        refl)

-- Service Directory gets the region and the project of the settings; what the settings leave empty is
-- taken from the metadata of GKE. In all other cases there is an error: on no other platform is
-- anything asked for.
pub parse_and_reset_gsd_settings-Settles :
    (at : Surroundings) (gc d : ServiceDirectorySettings)
    → (parse_and_reset_gsd_settings at gc ≡ ok d) ↔ (
        Settles at gc.default_region (get_gcp_region at) d.default_region
        × Settles at gc.project_id at.project_id d.project_id)
unfolding parse_and_reset_gsd_settings
parse_and_reset_gsd_settings-Settles at gc d =
    elim (Bool-cases (not (gc.default_region == "") && not (gc.project_id == ""))) [
      | inl given ↦
          let region : gc.default_region ≢ "" = grind text_laws in
          let project : gc.project_id ≢ "" = grind text_laws in
          rw given (
            λ h.
                let is : record { default_region = gc.default_region; project_id = gc.project_id }
                    ≡ d =
                  cc h in
                (
                  inl (region, sym (ap (λ (t : ServiceDirectorySettings). t.default_region) is)),
                  inl (project, sym (ap (λ (t : ServiceDirectorySettings). t.project_id) is)),
                ),
            λ (a, b).
                let same_region = Settles-given at gc.default_region _ d.default_region region a in
                let same_project = Settles-given at gc.project_id _ d.project_id project b in
                rw (← same_region, ← same_project) refl,
          )
      | inr missing ↦ rw missing (
        λ h.
            let (on_gke, told) = (ask_cloud-eq-ok at.running_in (asked at gc) d).0 h in
            asked-AreSettled at gc d on_gke told,
        λ (a, b).
            let on_gke =
              on_gke_of at gc.default_region gc.project_id missing
                (Settles-gke at gc.default_region _ d.default_region a)
                (Settles-gke at gc.project_id _ d.project_id b) in
            (ask_cloud-eq-ok at.running_in (asked at gc) d).1
              (on_gke, AreSettled-asked at gc d on_gke (a, b)),
      )
    ]
