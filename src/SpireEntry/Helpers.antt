-- ===== src/SpireEntry/Helpers.antt =====
-- internal/spireentry/entries.go: the helpers below RenderEntry.
use spire_eks_workload_regis.Prelude.{
  ℕ, ◌≡◌, ◌≢◌, ◌↔◌, ◌⊎◌, refl, ap, sym, ◌∙◌, Bool, true, false, not, List, [], ◌∷◌, ◌++◌, Option,
  none, some, Result, ok, err, errorf, wrap, traverse, if◌then◌else◌, ◌>>=◌, ◌==◌ as nat_eq, arith,
  Bool-cases, inl, inr,
}
use spire_eks_workload_regis.Prelude.Sorting.{sort}
use spire_eks_workload_regis.Prelude.Maps.{Map, lookup, insert}
use spire_eks_workload_regis.Text.{Text, bytes, ◌==◌, eq_iff}
use spire_eks_workload_regis.Text.Order.{text_order}
use spire_eks_workload_regis.Text.Split.{split_two, split_two-append, split_two-Lacks, Lacks}
use spire_eks_workload_regis.Api.{ObjectMeta, text_keys}
use spire_eks_workload_regis.SpireApi.{Spiffe, Selector}
use spire_eks_workload_regis.SpireEntry.Render.{Templates, TemplateData}

-- The switch of parseSelector, on the parts.
abbrev pub selector_of : List Text → Result Selector
selector_of (type ∷ value ∷ rest) =
    if type == []
    then err (errorf "type cannot be empty")
    else if value == []
    then err (errorf "value cannot be empty")
    else ok (record { type = type; value = value })
selector_of parts = err (errorf "expected at least one colon to separate type from value")

-- parseSelector
unfoldable pub parse_selector : Text → Result Selector
parse_selector selector = selector_of (split_two b':' selector)

-- parseSelectors
unfoldable pub parse_selectors : List Text → Result (List Selector)
parse_selectors selectors = traverse parse_selector selectors

module _ (sp : Spiffe) (t : Templates) where
  -- renderTemplate
  unfoldable pub render_template : t.Template → TemplateData → Result Text
  render_template tmpl values = wrap "failed to execute template" (t.execute tmpl values)

  -- renderSPIFFEID, with the equality of trust domains
  unfoldable pub render_spiffe_id :
      (sp.TrustDomain → sp.TrustDomain → Bool)
      → t.Template
      → TemplateData
      → sp.TrustDomain
      → Result sp.SpiffeId
  render_spiffe_id same tmpl values expect_td = render_template tmpl values >>= λ rendered.
      wrap "invalid SPIFFE ID" (sp.from_string rendered) >>= λ id.
      if not (same (sp.id_trust_domain id) expect_td)
      then err (errorf "invalid SPIFFE ID: unexpected trust domain")
      else ok id

abbrev is_present : Option Bool → Bool
is_present none = false
is_present (some b) = true

-- appendIfNotExists: the slice, and the set, which it changes
unfoldable pub append_if_not_exists :
    List Text → Map Text Bool → List Text → List Text × Map Text Bool
append_if_not_exists slice slice_set [] = (slice, slice_set)
append_if_not_exists slice slice_set (item ∷ items) =
    let known = is_present (lookup text_keys item slice_set) in
    append_if_not_exists (if known then slice else slice ++ item ∷ [])
      (if known then slice_set else insert text_keys item true slice_set) items

-- The names of one endpoint.
unfoldable pub endpoint_names : Text → ObjectMeta → List Text
endpoint_names cluster_domain endpoint =
    let service = endpoint.name ++ (bytes "." ++ endpoint.namespace) in
    endpoint.name
    ∷ service
    ∷ (service ++ bytes ".svc")
    ∷ (if not (cluster_domain == [])
        then (service ++ (bytes ".svc." ++ cluster_domain)) ∷ []
        else [])

abbrev pub names_of : Text → List ObjectMeta → List Text
names_of cluster_domain [] = []
names_of cluster_domain (e ∷ es) = endpoint_names cluster_domain e ++ names_of cluster_domain es

-- dnsNamesFromEndpoints, of the endpoints' metadata
unfoldable pub dns_names_from_endpoints : List ObjectMeta → Text → List Text
dns_names_from_endpoints endpoints cluster_domain =
    sort text_order (names_of cluster_domain endpoints)

cut_at :
    (sep : ℕ) (t : Text)
    → Lacks sep t ⊎ ((a : Text) × (b : Text) × (t ≡ a ++ sep ∷ b) × Lacks sep a)
cut_at sep [] = inl tt
cut_at sep (c ∷ t) = elim (Bool-cases (nat_eq c sep)) [
  | inl q ↦ inr ([], t, ground (arith, q), tt)
  | inr q ↦ elim (cut_at sep t) [
    | inl free ↦ inl (λ e. ground (arith, q, e), free)
    | inr (a, b, e, l) ↦ inr (c ∷ a, b, ap (◌∷◌ c) e, (λ e. ground (arith, q, e), l))
  ]
]

made_of :
    (a b : Text) (s : Selector)
    → (selector_of (a ∷ b ∷ []) ≡ ok s)
      ↔ ((a ≡ s.type) × (b ≡ s.value) × (s.type ≢ []) × (s.value ≢ []))
made_of a b s = elim (Bool-cases (a == [])) [
  | inl q ↦ (λ h. cc (rw q at h), λ (e, f, n, m). absurd (n (sym e ∙ (eq_iff a []).0 q)))
  | inr q ↦ elim (Bool-cases (b == [])) [
    | inl p ↦ (λ h. cc (rw (q, p) at h), λ (e, f, n, m). absurd (m (sym f ∙ (eq_iff b []).0 p)))
    | inr p ↦ (
      λ h.
          let h' : ok (record { type = a; value = b }) ≡ ok s = rw (q, p) at h in
          let same : record { type = a; value = b } ≡ s = cc h' in
          let type_is : a ≡ s.type = ap (λ (x : Selector). x.type) same in
          let value_is : b ≡ s.value = ap (λ (x : Selector). x.value) same in
          (
            type_is,
            value_is,
            λ e. cc (q, (eq_iff a []).1 (type_is ∙ e)),
            λ e. cc (p, (eq_iff b []).1 (value_is ∙ e)),
          ),
      λ (e, f, n, m). rw (q, p, e, f) refl,
    )
  ]
]

accepted :
    (text : Text) (s : Selector)
    → ((text ≡ s.type ++ b':' ∷ s.value) × Lacks b':' s.type × (s.type ≢ []) × (s.value ≢ []))
    → parse_selector text ≡ ok s
unfolding parse_selector
accepted text s (e, l, n, m) =
    rw (e, split_two-append b':' s.type s.value l) ((made_of s.type s.value s).1 (refl, refl, n, m))

-- parseSelector accepts a text exactly when it is a non-empty type without a colon, a colon, and a
-- non-empty value; and it returns these.
pub parse_selector_iff :
    (text : Text) (s : Selector)
    → (parse_selector text ≡ ok s)
      ↔ ((text ≡ s.type ++ b':' ∷ s.value) × Lacks b':' s.type × (s.type ≢ []) × (s.value ≢ []))
unfolding parse_selector
parse_selector_iff text s = elim (cut_at b':' text) [
  | inl whole ↦ (λ h. cc (rw (split_two-Lacks b':' text whole) at h), accepted text s)
  | inr (a, b, e, l) ↦ (
    λ h.
        let (t, v, n, m) = (made_of a b s).0 (rw (e, split_two-append b':' a b l) at h) in
        (rw (← t, ← v) e, rw (← t) l, n, m),
    accepted text s,
  )
]
