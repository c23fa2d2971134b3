-- ===== src/Startup/Clients.antt =====
-- utils.go: the clients of the service registries. What the libraries of etcd, Google and AWS return
-- are arguments, and so is the file system where a file is written.
use cnwan_operator.Common.{
  String, Option, none, some, List, ◌≡◌, ◌↔◌, ◌==◌, ◌⊎◌, refl, inl, inr, if◌then◌else◌,
  Option-cases, map,
}
use cnwan_operator.Common.Result.{Result, ok, err, ◌>>=◌, wrap, Result-cases, IsErr}
use cnwan_operator.GoMap.{Map, get, or_empty}
use cnwan_operator.Settings.{
  EtcdEndpoint, EtcdSettings, etcd_auth_with_nothing, etcd_auth_with_username_passw,
  parse_etcd_settings,
}
use cnwan_operator.Cluster.{
  Surroundings, get_google_service_account_secret, get_aws_credentials_secret,
  get_etcd_credentials_secret,
}
use cnwan_operator.Common.Outcome.{Outcome, returns, panics}
use cnwan_operator.Startup.{etcd_addresses}
use cnwan_operator.Startup.Endpoints.{address_of, etcd_addresses-parsed}
use cnwan_operator.Settings.Validity.{authentication_of_parsed}

-- `clientv3.Config`, as far as it is set. An empty user name is no user name.
pub record EtcdConfig : Type 0 where
  pub endpoints : List String
  pub username : String
  pub password : String

module _ {Client : Type 0} where
  abbrev pub with_credentials :
      (EtcdConfig → Result Client) → List String → String × String → Result Client
  with_credentials new endps (user, pass) =
      new (record { endpoints = endps; username = user; password = pass })

  abbrev pub log_in :
      (EtcdConfig → Result Client) → List String → Result (String × String) → Result Client
  log_in new endps answer = answer >>= λ login. with_credentials new endps login

  pub dial_etcd :
      (EtcdConfig → Result Client) → Surroundings → EtcdSettings → List String → Result Client
  dial_etcd new at settings endps =
      if settings.authentication == etcd_auth_with_nothing
      then new (record { endpoints = endps; username = ""; password = "" })
      else if settings.authentication == etcd_auth_with_username_passw
      then log_in new endps (get_etcd_credentials_secret at)
      else err "unsupported etcd authentication method"

  pub then_dial :
      (EtcdConfig → Result Client)
      → Surroundings
      → EtcdSettings
      → Outcome (List String)
      → Outcome (Result Client)
  unfolding dial_etcd
  then_dial new at settings panics = panics
  then_dial new at settings (returns endps) = returns (dial_etcd new at settings endps)

  unfoldable pub get_etcd_client :
      (EtcdConfig → Result Client) → Surroundings → EtcdSettings → Outcome (Result Client)
  unfolding then_dial
  get_etcd_client new at settings = then_dial new at settings (etcd_addresses settings.endpoints)

  unfoldable pub get_gsd_client :
      (credentials_client : String → Result Client) → Surroundings → Result Client
  get_gsd_client credentials_client at =
      wrap "could not load google service account secret: " (get_google_service_account_secret at)
      >>= λ sa_bytes.
          wrap "could not get start service directory client: " (credentials_client sa_bytes)

-- The content of the temporary file, if there is one.
abbrev pub TempFile : Type 0
TempFile = Option String

-- `os.WriteFile` may fail. `LoadDefaultConfig` reads the region and the file.
pub record AwsSdk (Client : Type 0) : Type 0 where
  pub write_error : Option String
  pub load_default_config : Option String → TempFile → Result Client

module _ {Client : Type 0} (sdk : AwsSdk Client) where
  -- An error of `LoadDefaultConfig` is dropped, and the client is nil.
  abbrev loaded : Result Client → Option Client
  loaded (err e) = none
  loaded (ok cli) = some cli

  abbrev written :
      Option String → Option String → String → TempFile → Result (Option Client) × TempFile
  written (some e) region sa_bytes file = (err e, file)
  written none region sa_bytes file =
      (ok (loaded (sdk.load_default_config region (some sa_bytes))), none)

  abbrev with_secret : Result String → Option String → TempFile → Result (Option Client) × TempFile
  with_secret (err e) region file = (wrap "could not load aws credentials secret: " (err e), file)
  with_secret (ok sa_bytes) region file = written sdk.write_error region sa_bytes file

  unfoldable pub get_aws_client :
      Surroundings → Option String → TempFile → Result (Option Client) × TempFile
  get_aws_client at region file = with_secret (get_aws_credentials_secret at) region file

-- With settings that were parsed no nil pointer is followed and no authentication is refused. A client of
-- etcd is asked for at "host:port" of every endpoint, in the order of the settings: without credentials if
-- the settings want none, and else with the user name and the password that the secret
-- "etcd-credentials" has, either of them empty where it has none. If that secret cannot be read, its error
-- is returned.
pub get_etcd_client-parsed :
    {Client : Type 0} (new : EtcdConfig → Result Client) (at : Surroundings)
    (s parsed : EtcdSettings)
    → parse_etcd_settings s ≡ returns (ok parsed)
    → (endpoints : List EtcdEndpoint) × (parsed.endpoints ≡ map some endpoints)
      × (((parsed.authentication ≡ etcd_auth_with_nothing)
            × (get_etcd_client new at parsed
                ≡ returns (
                    new (record {
                      endpoints = map address_of endpoints;
                      username = "";
                      password = "";
                    }))))
          ⊎ ((parsed.authentication ≡ etcd_auth_with_username_passw)
              × (data_of : Map String) × (at.secret "etcd-credentials" ≡ ok data_of)
              × (get_etcd_client new at parsed
                  ≡ returns (
                      new (record {
                        endpoints = map address_of endpoints;
                        username = or_empty (get "username" data_of);
                        password = or_empty (get "password" data_of);
                      }))))
          ⊎ ((parsed.authentication ≡ etcd_auth_with_username_passw)
              × (e : String) × (at.secret "etcd-credentials" ≡ err e)
              × (get_etcd_client new at parsed ≡ returns (err e))))
unfolding get_etcd_client then_dial dial_etcd get_etcd_credentials_secret
get_etcd_client-parsed new at s parsed h =
    let (endpoints, are, addresses) = etcd_addresses-parsed s parsed h in
    (
      endpoints,
      are,
      elim (authentication_of_parsed s parsed h) [
        | inl nothing ↦ inl (nothing, rw addresses (simp nothing))
        | inr passw ↦ elim (Result-cases (at.secret "etcd-credentials")) [
          | inl (data_of, read) ↦
              inr (inl (passw, data_of, read, rw addresses (simp (passw, read))))
          | inr (e, unread) ↦ inr (inr (passw, e, unread, rw addresses (simp (passw, unread))))
        ]
      ],
    )

-- The credentials of AWS are not left behind: after a call the temporary file is gone, or it is as it
-- was before a call that could not read the secret or write the file. A client is missing, without an
-- error, if and only if the configuration could not be loaded.
pub get_aws_client-leaves :
    {Client : Type 0} (sdk : AwsSdk Client) (at : Surroundings) (region : Option String)
    (file : TempFile)
    → (((get_aws_client sdk at region file).1 ≡ none)
        ⊎ (((get_aws_client sdk at region file).1 ≡ file)
            × IsErr (get_aws_client sdk at region file).0))
      × (((get_aws_client sdk at region file).0 ≡ ok none) ↔ (
          (sa_bytes : String) × (get_aws_credentials_secret at ≡ ok sa_bytes)
          × (sdk.write_error ≡ none)
          × IsErr (sdk.load_default_config region (some sa_bytes))))
unfolding get_aws_client
get_aws_client-leaves sdk at region file = elim (Result-cases (get_aws_credentials_secret at)) [
  | inr (e, unread) ↦
      rw unread (inr (refl, (_, refl)), (λ h. cc h, λ (sa_bytes, read, _, _). cc read))
  | inl (sa_bytes, read) ↦ elim (Option-cases sdk.write_error) [
    | inr (e, failed) ↦
        simp (read, failed)
          (inr (refl, (_, refl)), (λ h. cc h, λ (s, same, no_error, _). cc no_error))
    | inl done ↦ elim (Result-cases (sdk.load_default_config region (some sa_bytes))) [
      | inr (e, unloaded) ↦
          simp (read, done, unloaded)
            (inl refl, (λ h. (sa_bytes, refl, refl, (e, unloaded)), λ h. refl))
      | inl (cli, was_loaded) ↦
          simp (read, done, was_loaded)
            (
              inl refl,
              (
                λ h. cc h,
                λ (s, same, _, unloaded).
                    let is : sa_bytes ≡ s = cc same in
                    let again : sdk.load_default_config region (some sa_bytes) ≡ err unloaded.0 =
                      rw is unloaded.1 in
                    cc (again, was_loaded),
              ),
            )
    ]
  ]
]
