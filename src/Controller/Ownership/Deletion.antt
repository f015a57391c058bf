-- ===== src/Controller/Ownership/Deletion.antt =====
-- What the ownership tests of the deletion controller say of rendered entries.
use spire_eks_workload_regis.Prelude.{
  ◌≡◌, ◌≢◌, refl, sym, ap, ◌∙◌, ◌↔◌, ◌⊎◌, subst, inl, inr, Bool, true, false, ◌||◌, [], ◌∷◌, ◌++◌,
  ok, arith, Bool-cases, append_assoc, if◌then◌else◌,
}
use spire_eks_workload_regis.Text.{Text, bytes, ◌==◌, eq_iff, has_prefix-append}
use spire_eks_workload_regis.Text.Search.{contains, contains-append}
use spire_eks_workload_regis.Text.Split.{Lacks, split, split-append, split-Lacks, Lacks-append}
use spire_eks_workload_regis.Api.{Kube, WorkloadIdentity, EksClusterRegistry, Pod, Node}
use spire_eks_workload_regis.SpireApi.{Spiffe, Entry}
use spire_eks_workload_regis.SpireEntry.Render.{Templates, render_entry, render_hint, owner_info}
use spire_eks_workload_regis.SpireEntry.Render.Facts.{render_entry-IsRendered}
use spire_eks_workload_regis.Controller.Ownership.{
  cluster_owns, owner_key_in, third_is, expected_prefix,
}
use spire_eks_workload_regis.Controller.Ownership.Targeted.{
  render_hint-unset, render_hint-set, both_guards,
}

abbrev hint_of : Text → Text → Text
hint_of n c =
    expected_prefix
    ++ (n ++ (b':' ∷ (c ++ (bytes ";owner" ++ (b':' ∷ bytes "WorkloadIdentity/" ++ n)))))

third_is-hint :
    (n c x : Text)
    → Lacks b':' n
    → Lacks b':' c
    → Lacks b';' c
    → third_is (split b':' (hint_of n c)) x ≡ (c == x)
unfolding third_is
third_is-hint n c x h k l = rw (
  split-append b':' (bytes "workloadidentity")
      (n ++ (b':' ∷ (c ++ (bytes ";owner" ++ (b':' ∷ bytes "WorkloadIdentity/" ++ n)))))
      (omega arith),
  split-append b':' n (c ++ (bytes ";owner" ++ (b':' ∷ bytes "WorkloadIdentity/" ++ n))) h,
  sym (append_assoc c (bytes ";owner") (b':' ∷ bytes "WorkloadIdentity/" ++ n)),
  split-append b':' (c ++ bytes ";owner") (bytes "WorkloadIdentity/" ++ n)
      (Lacks-append b':' c (bytes ";owner") k (omega arith)),
  split-append b';' c (bytes "owner") l,
)

contains-cluster : (n c : Text) → contains (hint_of n c) (b':' ∷ c) ≡ true
contains-cluster n c =
    subst (λ h. contains h (b':' ∷ c) ≡ true) (append_assoc expected_prefix n _)
      (contains-append (expected_prefix ++ n) (b':' ∷ c)
        (bytes ";owner" ++ (b':' ∷ bytes "WorkloadIdentity/" ++ n)))

unset_ends :
    (n c : Text)
    → (expected_prefix ++ (n ++ (b':' ∷ c ++ (b';' ∷ [])))) ++ owner_info n
      ≡ expected_prefix
        ++ (n ++ (b':' ∷ (c ++ (bytes ";owner" ++ (b':' ∷ bytes "WorkloadIdentity/" ++ n)))))
unfolding owner_info
unset_ends n c =
    rw
      (
        append_assoc expected_prefix (n ++ (b':' ∷ c ++ (b';' ∷ []))) (owner_info n),
        append_assoc n (b':' ∷ c ++ (b';' ∷ [])) (owner_info n),
        append_assoc c (b';' ∷ []) (owner_info n),
      )
      refl

either_guard :
    {P : Type 0} (a b d : Bool)
    → (P → b ≡ true)
    → (d ≡ true) ↔ P
    → ((if a || b then d else false) ≡ true) ↔ P
either_guard true b d f g = g
either_guard false true d f g = g
either_guard false false d f g = ((λ q. cc q), (λ p. cc (f p)))

-- A text with one colon or none.
abbrev pub HasOneColonAtMost : Text → Type 0
HasOneColonAtMost h =
    Lacks b':' h ⊎ ((a : Text) × (b : Text) × (h ≡ a ++ (b':' ∷ b)) × Lacks b':' a × Lacks b':' b)

slash_in : (p s : Text) → ¬ Lacks b'/' (p ++ (b'/' ∷ s))
slash_in [] s h = h.0 refl
slash_in (c ∷ p) s h = slash_in p s h.1

owner_is_no_name :
    (n name : Text) → Lacks b'/' name → (bytes "WorkloadIdentity/" ++ n == name) ≡ false
owner_is_no_name n name h = elim (Bool-cases (bytes "WorkloadIdentity/" ++ n == name)) [
  | inl e ↦ absurd (
      slash_in (bytes "WorkloadIdentity") n
        (subst (Lacks b'/') (sym ((eq_iff (bytes "WorkloadIdentity/" ++ n) name).0 e)) h))
  | inr e ↦ e
]

-- What a hint of an identity's own ends in after its last colon, split at the colons.
split_own :
    (h n : Text)
    → Lacks b':' h
    → Lacks b':' n
    → split b':' (h ++ (b';' ∷ (bytes "owner:WorkloadIdentity/" ++ n)))
      ≡ (h ++ bytes ";owner") ∷ (bytes "WorkloadIdentity/" ++ n) ∷ []
split_own h n k l =
    rw
      (
        sym (append_assoc h (bytes ";owner") (b':' ∷ bytes "WorkloadIdentity/" ++ n)),
        split-append b':' (h ++ bytes ";owner") (bytes "WorkloadIdentity/" ++ n)
            (Lacks-append b':' h (bytes ";owner") k (omega arith)),
        split-Lacks b':' (bytes "WorkloadIdentity/" ++ n)
            (Lacks-append b':' (bytes "WorkloadIdentity/") n (omega arith) l),
      )
      refl

third_is-own :
    (h n name : Text)
    → HasOneColonAtMost h
    → Lacks b':' n
    → Lacks b';' n
    → Lacks b'/' name
    → third_is (split b':' (h ++ (b';' ∷ (bytes "owner:WorkloadIdentity/" ++ n)))) name ≡ false
unfolding third_is
third_is-own h n name (inl k) l m o = rw (split_own h n k l) refl
third_is-own h n name (inr (a, b, e, ka, kb)) l m o =
    rw
      (
        e,
        append_assoc a (b':' ∷ b) (b';' ∷ (bytes "owner:WorkloadIdentity/" ++ n)),
        split-append b':' a (b ++ (b';' ∷ (bytes "owner:WorkloadIdentity/" ++ n))) ka,
        split_own b n kb l,
        split-Lacks b';' (bytes "WorkloadIdentity/" ++ n)
            (Lacks-append b';' (bytes "WorkloadIdentity/") n (omega arith) m),
      )
      (owner_is_no_name n name o)

cluster_owns-hint :
    (n c x : Text)
    → Lacks b':' n
    → Lacks b':' c
    → Lacks b';' c
    → (cluster_owns (hint_of n c) x ≡ true) ↔ (x ≡ c)
unfolding cluster_owns
cluster_owns-hint n c x h k l =
    rw
      (
        third_is-hint n c x h k l,
        has_prefix-append expected_prefix
            (n ++ (b':' ∷ (c ++ (bytes ";owner" ++ (b':' ∷ bytes "WorkloadIdentity/" ++ n))))),
      )
      (either_guard (contains (hint_of n c) (b':' ∷ x ++ (b';' ∷ [])))
        (contains (hint_of n c) (b':' ∷ x)) (c == x) (λ e. rw e (contains-cluster n c))
        ((λ q. sym ((eq_iff c x).0 q)), (λ e. (eq_iff c x).1 (sym e))))

-- The hint of a rendered entry ends in the owner mark, of which any prefix is a part of the hint.
render_hint-ends : (hint n c : Text) → (a : Text) × (render_hint hint n c ≡ a ++ owner_info n)
render_hint-ends hint n c = elim (Bool-cases (hint == [])) [
  | inl e ↦ (
    expected_prefix ++ (n ++ (b':' ∷ c ++ (b';' ∷ []))),
    render_hint-unset hint n c ((eq_iff hint []).0 e) ∙ sym (unset_ends n c),
  )
  | inr e ↦ (
    hint ++ (b';' ∷ []),
    render_hint-set hint n c (λ q. cc (e, (eq_iff hint []).1 q))
        ∙ sym (append_assoc hint (b';' ∷ []) (owner_info n)),
  )
]

contains-owner : (a n rest : Text) → contains (a ++ (owner_info n ++ rest)) (owner_info n) ≡ true
contains-owner a n rest = contains-append a (owner_info n) rest

module _ (sp : Spiffe) (k : Kube) (t : Templates) (identity : WorkloadIdentity k)
    (cluster : EksClusterRegistry) (pod : Pod) (node : Node) (trust_domain : Text) (e : Entry sp)
    (rendered : render_entry sp k t identity cluster pod node trust_domain ≡ ok e) where
  hint_is : e.hint ≡ render_hint identity.spec.hint identity.meta.name cluster.meta.name
  hint_is = (render_entry-IsRendered sp k t identity cluster pod node trust_domain e rendered).hint

  -- Of an identity with no hint of its own, whose name has no colon, and a cluster whose name has
  -- neither a colon nor a semicolon, deleting a cluster selects a rendered entry exactly if it is
  -- the cluster that the entry was rendered for.
  pub cluster_owns_iff :
      identity.spec.hint ≡ []
      → Lacks b':' identity.meta.name
      → Lacks b':' cluster.meta.name
      → Lacks b';' cluster.meta.name
      → (name : Text) → (cluster_owns e.hint name ≡ true) ↔ (name ≡ cluster.meta.name)
  cluster_owns_iff none_set n c l name =
      rw
        (
          hint_is,
          render_hint-unset identity.spec.hint identity.meta.name cluster.meta.name none_set,
        )
        (cluster_owns-hint identity.meta.name cluster.meta.name name n c l)

  -- Of an identity with a hint of its own that has one colon at most, and whose name has neither a
  -- colon nor a semicolon, deleting a cluster selects no rendered entry: not even those of the cluster
  -- that they were rendered for, whatever that is called, as long as the deleted cluster's name has no slash.
  pub cluster_owns-hinted :
      identity.spec.hint ≢ []
      → HasOneColonAtMost identity.spec.hint
      → Lacks b':' identity.meta.name
      → Lacks b';' identity.meta.name
      → (name : Text) → Lacks b'/' name
      → cluster_owns e.hint name ≡ false
  unfolding cluster_owns owner_info
  cluster_owns-hinted set one_colon n m name l =
      rw (hint_is, render_hint-set identity.spec.hint identity.meta.name cluster.meta.name set)
        (both_guards _ _ (third_is-own identity.spec.hint identity.meta.name name one_colon n m l))

  -- Deleting the identity that an entry was rendered for selects the entry, and so does deleting any
  -- other identity whose name is a prefix of that identity's name.
  pub owner_key_in-prefix :
      (name rest : Text)
      → identity.meta.name ≡ name ++ rest
      → owner_key_in e.hint (bytes "WorkloadIdentity") name ≡ true
  unfolding owner_key_in owner_info
  owner_key_in-prefix name rest longer_name =
      let ends = render_hint-ends identity.spec.hint identity.meta.name cluster.meta.name in
      rw (hint_is, ends.1, ap owner_info longer_name) (contains-owner ends.0 name rest)
