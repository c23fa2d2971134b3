-- ===== src/ServiceRegistry/System/Histories.antt =====
-- A history of the worker that the map has for a namespace, such as what it was sent or what it has
-- handled, and what each operation of the dispatcher makes of it.
use cnwan_operator.Common.{
  ◌++◌, Elem-append, Elem-append_left, Elem-append_right, ℕ, String, true, false, Option, none,
  some, List, [], ◌∷◌, ◌≡◌, ◌≢◌, refl, sym, ap, ◌∙◌, inl, inr, Elem, Bool-cases, Option-cases, ◌==◌,
  eq_iff, All, is_empty,
}
use cnwan_operator.GoMap.{Map, get, has, put}
use cnwan_operator.GoMap.Laws.{get-put, has-get}
use cnwan_operator.ServiceRegistry.Events.{Event, get_namespace_name_from_event_object}
use cnwan_operator.ServiceRegistry.Dispatcher.{
  Worker, EventHandler, new_worker, get_or_create_namespace_worker, receive, cancel, is_idle,
  keep_busy, stop_idle, cancel_all, stop_watching,
}
use cnwan_operator.ServiceRegistry.Dispatcher.Consistent.{IsPlaced}

abbrev pub NoneNamed : String → List Worker → Type 0
NoneNamed ns ws = (v : Worker) → Elem v ws → v.name ≢ ns

pub NoneNamed-replaced :
    (ns : String) (before : List Worker) (w w' : Worker) (later : List Worker)
    → w'.name ≡ w.name
    → NoneNamed ns (before ++ w' ∷ later)
    → NoneNamed ns (before ++ w ∷ later)
NoneNamed-replaced ns before w w' later same alone v m = elim (Elem-append v before (w ∷ later) m) [
  | inl earlier ↦ alone v (Elem-append_left v before (w' ∷ later) earlier)
  | inr (inl is) ↦ λ at.
      alone w' (Elem-append_right w' before (w' ∷ later) (inl refl))
        (same ∙ ap (λ (x : Worker). x.name) (sym is) ∙ at)
  | inr (inr more) ↦ alone v (Elem-append_right v before (w' ∷ later) (inr more))
]

module _ (f : Worker → List Event) where
  abbrev pub history_of : Option Worker → List Event
  history_of none = []
  history_of (some w) = f w

  abbrev pub history_by : String → Map Worker → List Event
  history_by ns m = history_of (get ns m)

  pub history_by-put :
      (ns name : String) (w : Worker) (m : Map Worker)
      → f w ≡ history_by name m
      → history_by ns (put name w m) ≡ history_by ns m
  history_by-put ns name w m same = elim (Bool-cases (name == ns)) [
    | inl e ↦
        let is : name ≡ ns = (eq_iff name ns).0 e in
        rw (get-put name ns w m, e) (same ∙ ap (λ k. history_by k m) is)
    | inr e ↦ rw (get-put name ns w m, e) refl
  ]

  missing-history_by : (k : String) (m : Map Worker) → has k m ≡ false → history_by k m ≡ []
  missing-history_by k m absent = elim (Option-cases (get k m)) [
    | inl e ↦ rw e refl
    | inr (w, there) ↦
        let known : has k m ≡ true = has-get k m ∙ rw there refl in cc (known, absent)
  ]

  pub history_by-keep_busy :
      (ns : String) (now : ℕ) (m : Map Worker)
      → All IsPlaced m
      → NoneNamed ns (stop_idle now m)
      → history_by ns (keep_busy now m) ≡ history_by ns m
  unfolding keep_busy stop_idle get
  history_by-keep_busy ns now [] h alone = refl
  history_by-keep_busy ns now ((k, w) ∷ m) ((at, sound), h) alone =
      elim (Bool-cases (is_idle now w)) [
        | inl idle ↦
            let alone' : NoneNamed ns (cancel w ∷ stop_idle now m) = rw idle at alone in
            let other : (k == ns) ≡ false = elim (Bool-cases (k == ns)) [
              | inl same ↦ absurd (alone' (cancel w) (inl refl) (at ∙ (eq_iff k ns).0 same))
              | inr e ↦ e
            ] in
            rw (idle, other) (history_by-keep_busy ns now m h (λ v there. alone' v (inr there)))
        | inr busy ↦
            let alone' : NoneNamed ns (stop_idle now m) = rw busy at alone in
            elim (Bool-cases (k == ns)) [
              | inl same ↦ rw (busy, same) refl
              | inr other ↦ rw (busy, other) (history_by-keep_busy ns now m h alone')
            ]
      ]

  module _ (kept : (w : Worker) → f (cancel w) ≡ f w) where
    pub history_by-cancel_all :
        (ns : String) (m : Map Worker) → history_by ns (cancel_all m) ≡ history_by ns m
    unfolding cancel_all get
    history_by-cancel_all ns [] = refl
    history_by-cancel_all ns ((k, w) ∷ m) = elim (Bool-cases (k == ns)) [
      | inl same ↦ rw same (kept w)
      | inr other ↦ rw other (history_by-cancel_all ns m)
    ]

    pub history_by-stop_watching :
        (ns : String) (e : EventHandler)
        → history_by ns (stop_watching e).workers ≡ history_by ns e.workers
    unfolding stop_watching
    history_by-stop_watching ns e = elim (Bool-cases (is_empty e.workers)) [
      | inl nobody ↦ rw nobody refl
      | inr somebody ↦ rw somebody (history_by-cancel_all ns e.workers)
    ]

  pub history_by-receive :
      ((name : String) → f (new_worker name) ≡ [])
      → (ns : String) (event : Event) (e : EventHandler)
      → history_by ns (receive event e).workers ≡ history_by ns e.workers
  unfolding receive get_or_create_namespace_worker
  history_by-receive fresh ns event e =
      let name = get_namespace_name_from_event_object event in
      elim (Bool-cases (name == "")) [
        | inl unnamed ↦ rw unnamed refl
        | inr named ↦ elim (Bool-cases (has name e.workers)) [
          | inl known ↦ rw (named, known) refl
          | inr new ↦
              rw (named, new)
                (history_by-put ns name (new_worker name) e.workers
                  (fresh name ∙ sym (missing-history_by name e.workers new)))
        ]
      ]
