-- ===== src/Settings/Endpoints.antt =====
-- The endpoints of etcd that the parsed settings hold.
use cnwan_operator.Common.{
  text_laws, ℕ, true, false, Option, none, some, List, [], ◌∷◌, ◌≡◌, ◌≢◌, ◌↔◌, ◌⊎◌, ◌∙◌, refl, sym,
  ap, arith, inl, inr, Elem, ◌==◌, eq_iff, Bool-cases,
}
use cnwan_operator.GoMap.{Map, get, put}
use cnwan_operator.GoMap.Laws.{get-put}
use cnwan_operator.Settings.{EtcdEndpoint, or_default, is_dup, parse_endpoints}

-- The endpoint with its port written out.
abbrev pub explicit : EtcdEndpoint → EtcdEndpoint
explicit endp = record { host = endp.host; port = some (or_default endp.port) }

is_dup_iff : (o : Option ℕ) (port : ℕ) → (is_dup o port ≡ true) ↔ (o ≡ some port)
is_dup_iff none port = (λ h. cc, λ h. cc)
is_dup_iff (some val) port = ground arith

parsed-given :
    (dups : Map ℕ) (endpoints : List EtcdEndpoint) (e : EtcdEndpoint)
    → Elem e (parse_endpoints dups endpoints)
    → (endp : EtcdEndpoint) × Elem endp endpoints × (endp.host ≢ "") × (e ≡ explicit endp)
unfolding parse_endpoints
parsed-given dups [] e h = absurd h
parsed-given dups (endp ∷ endpoints) e h = elim (Bool-cases (endp.host == "")) [
  | inl empty ↦
      let (given, m, named, is) = parsed-given dups endpoints e (rw empty at h) in
      (given, inr m, named, is)
  | inr named ↦ elim (Bool-cases (is_dup (get endp.host dups) (or_default endp.port))) [
    | inl dup ↦
        let (given, m, named, is) = parsed-given dups endpoints e (rw (named, dup) at h) in
        (given, inr m, named, is)
    | inr new ↦
        let here : Elem e (
            explicit endp ∷ parse_endpoints (put endp.host (or_default endp.port) dups) endpoints) =
          rw (named, new) at h in
        elim here [
          | inl is ↦ (endp, inl refl, grind text_laws, is)
          | inr later ↦
              let (given, m, named', is) =
                parsed-given (put endp.host (or_default endp.port) dups) endpoints e later in
              (given, inr m, named', is)
        ]
  ]
]

after_put :
    (first endp : EtcdEndpoint) (dups : Map ℕ) (rest : List EtcdEndpoint)
    → get endp.host (put first.host (or_default first.port) dups) ≡ some (or_default endp.port)
    → Elem (explicit endp) (explicit first ∷ rest)
      ⊎ (get endp.host dups ≡ some (or_default endp.port))
after_put first endp dups rest before =
    let value = get-put first.host endp.host (or_default first.port) dups in
    elim (Bool-cases (first.host == endp.host)) [
      | inl same ↦
          let host : first.host ≡ endp.host = (eq_iff first.host endp.host).0 same in
          let at_first : some (or_default first.port) ≡ some (or_default endp.port) =
            sym (value ∙ rw same refl) ∙ before in
          let port : or_default first.port ≡ or_default endp.port = cc at_first in
          inl (inl (rw (host, port) refl))
      | inr other ↦ inr (sym (value ∙ rw other refl) ∙ before)
    ]

-- A given endpoint is in the result, or was there before the loop came to it.
given-parsed :
    (dups : Map ℕ) (endpoints : List EtcdEndpoint) (endp : EtcdEndpoint)
    → Elem endp endpoints
    → endp.host ≢ ""
    → Elem (explicit endp) (parse_endpoints dups endpoints)
      ⊎ (get endp.host dups ≡ some (or_default endp.port))
unfolding parse_endpoints
given-parsed dups [] endp m named = absurd m
given-parsed dups (first ∷ endpoints) endp (inl same) named =
    let has_host : (first.host == "") ≡ false = elim (Bool-cases (first.host == "")) [
      | inl empty ↦
          absurd (named (ap (λ (e : EtcdEndpoint). e.host) same ∙ (eq_iff first.host "").0 empty))
      | inr e ↦ e
    ] in
    elim (Bool-cases (is_dup (get first.host dups) (or_default first.port))) [
      | inl dup ↦ inr (rw same ((is_dup_iff _ _).0 dup))
      | inr new ↦ rw (has_host, new) (inl (inl (ap explicit same)))
    ]
given-parsed dups (first ∷ endpoints) endp (inr m) named = elim (Bool-cases (first.host == "")) [
  | inl empty ↦ rw empty (given-parsed dups endpoints endp m named)
  | inr has_host ↦ elim (Bool-cases (is_dup (get first.host dups) (or_default first.port))) [
    | inl dup ↦ rw (has_host, dup) (given-parsed dups endpoints endp m named)
    | inr new ↦
        rw (has_host, new)
          (elim (given-parsed (put first.host (or_default first.port) dups) endpoints endp m
            named) [
              | inl there ↦ inl (inr there)
              | inr before ↦ after_put first endp dups _ before
            ])
  ]
]

-- The parsed endpoints of etcd are those given that have a host, each with its port written out:
-- the well-known port 2379 where none is given.
pub Elem-parse_endpoints :
    (endpoints : List EtcdEndpoint) (e : EtcdEndpoint)
    → Elem e (parse_endpoints [] endpoints)
      ↔ ((endp : EtcdEndpoint) × Elem endp endpoints × (endp.host ≢ "") × (e ≡ explicit endp))
Elem-parse_endpoints endpoints e = (
  parsed-given [] endpoints e,
  λ (endp, m, named, is). elim (given-parsed [] endpoints endp m named) [
    | inl there ↦ rw is there
    | inr before ↦ absurd (unfold get in cc before)
  ],
)
