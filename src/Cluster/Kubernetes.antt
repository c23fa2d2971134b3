-- ===== src/Cluster/Kubernetes.antt =====
-- pkg/cluster/kubernetes.go: the client of Kubernetes, which a package variable keeps, and the two reads
-- that use it. What Kubernetes answers is an argument.
use cnwan_operator.Common.{String, Option, none, some, ◌≡◌, ◌≢◌, ◌↔◌, refl, inl, inr, Option-cases}
use cnwan_operator.Common.Result.{Result, ok, err}
use cnwan_operator.GoMap.{Map}

-- A client set, or a nil `*Clientset` in an interface value, which is not the nil interface.
pub data ClientSet : Type 0 where
  client_set : ClientSet
  nil_client_set : ClientSet

-- The errors of `GetConfig` and `NewForConfig`, and the objects of the operator's namespace.
pub record Api : Type 0 where
  pub config_error : Option String
  pub client_error : Option String
  pub secret : String → Result (Map String)
  pub config_map : String → Result (Map String)

-- With its error `NewForConfig` returns a nil pointer, which the variable takes before the test.
abbrev new_for_config : Option String → Result ClientSet × Option ClientSet
new_for_config (some e) = (err e, some nil_client_set)
new_for_config none = (ok client_set, some client_set)

abbrev with_config : Option String → Option String → Result ClientSet × Option ClientSet
with_config (some e) client_error = (err e, none)
with_config none client_error = new_for_config client_error

-- The last argument is the package variable `kcli`, none where it is nil.
unfoldable pub get_k8s_client_set : Api → Option ClientSet → Result ClientSet × Option ClientSet
get_k8s_client_set api (some cli) = (ok cli, some cli)
get_k8s_client_set api none = with_config api.config_error api.client_error

pub data Reply : Type 0 where
  replies : Result (Map String) → Reply
  panics : Reply

-- A method of a nil `*Clientset` reads a field of it.
abbrev call : Result ClientSet → Result (Map String) → Reply
call (err e) answer = replies (err e)
call (ok client_set) answer = replies answer
call (ok nil_client_set) answer = panics

unfoldable pub get_secret : Api → String → Option ClientSet → Reply × Option ClientSet
unfolding get_k8s_client_set
get_secret api name kcli =
    let (cli, kcli') = get_k8s_client_set api kcli in (call cli (api.secret name), kcli')

-- `GetOperatorSettingsConfigMap`, up to the switch on the data.
unfoldable pub get_config_map : Api → String → Option ClientSet → Reply × Option ClientSet
unfolding get_k8s_client_set
get_config_map api name kcli =
    let (cli, kcli') = get_k8s_client_set api kcli in (call cli (api.config_map name), kcli')

first_ne_panics :
    (api : Api) (answer : Result (Map String))
    → call (get_k8s_client_set api none).0 answer ≢ panics
unfolding get_k8s_client_set
first_ne_panics api answer h = elim (Option-cases api.config_error) [
  | inr (e, no_config) ↦ let clash = simp no_config at h in cc clash
  | inl configured ↦ elim (Option-cases api.client_error) [
    | inr (e, no_client) ↦ let clash = simp (configured, no_client) at h in cc clash
    | inl made ↦ let clash = simp (configured, made) at h in cc clash
  ]
]

-- If the first read could load its configuration and not create a client, the next read panics whatever
-- Kubernetes answers by then; in every other case it does not. The first read never panics.
pub get_secret-panics :
    (first next : Api) (settings name : String)
    → ((get_config_map first settings none).0 ≢ panics)
      × (((get_secret next name (get_config_map first settings none).1).0 ≡ panics)
          ↔ ((first.config_error ≡ none) × (e : String) × (first.client_error ≡ some e)))
unfolding get_secret get_config_map get_k8s_client_set
get_secret-panics first next settings name = elim (Option-cases first.config_error) [
  | inr (e, no_config) ↦ simp no_config (
    λ h. cc h,
    (λ h. absurd (first_ne_panics next (next.secret name) h), λ (none_here, _, _). cc none_here),
  )
  | inl configured ↦ elim (Option-cases first.client_error) [
    | inr (e, no_client) ↦
        simp (configured, no_client) (λ h. cc h, (λ h. (refl, e, refl), λ h. refl))
    | inl made ↦ simp (configured, made) (λ h. cc h, (λ h. cc h, λ (_, e, failed). cc failed))
  ]
]
