-- ===== src/Controller/Ownership/Targeted.antt =====
-- What the ownership tests of the targeted reconciler say of rendered entries.
use spire_eks_workload_regis.Prelude.{
  ◌<◌, ◌≡◌, ◌≢◌, refl, sym, ap, subst, inl, inr, Bool, true, false, [], ◌∷◌, ◌++◌, ok, arith,
  length, length-append, drop, Bool-cases, append_assoc, if◌then◌else◌,
}
use spire_eks_workload_regis.Text.{Text, bytes, ◌==◌, eq_iff}
use spire_eks_workload_regis.Text.Search.{contains, contains-append}
use spire_eks_workload_regis.Text.Split.{Lacks, split, split-append, Lacks-append}
use spire_eks_workload_regis.Api.{Kube, WorkloadIdentity, EksClusterRegistry, Pod, Node}
use spire_eks_workload_regis.SpireApi.{Spiffe, Entry}
use spire_eks_workload_regis.SpireEntry.Render.{Templates, render_entry, render_hint, owner_info}
use spire_eks_workload_regis.SpireEntry.Render.Facts.{render_entry-IsRendered}
use spire_eks_workload_regis.Controller.Ownership.{
  entry_belongs_to_identity, entry_belongs_to_cluster, second_is, expected_prefix,
}

longer : (s t : Text) → 0 < length t → (s ++ t == s) ≡ false
longer s t h = elim (Bool-cases (s ++ t == s)) [
  | inl e ↦ absurd (omega (arith, ap length ((eq_iff (s ++ t) s).0 e), length-append s t))
  | inr e ↦ e
]

-- The two forms of a rendered hint.
pub render_hint-unset :
    (hint n c : Text)
    → hint ≡ []
    → render_hint hint n c
      ≡ expected_prefix
        ++ (n ++ (b':' ∷ (c ++ (bytes ";owner" ++ (b':' ∷ bytes "WorkloadIdentity/" ++ n)))))
unfolding render_hint ◌==◌
render_hint-unset hint n c h = rw h refl

pub render_hint-set :
    (hint n c : Text) → hint ≢ [] → render_hint hint n c ≡ hint ++ (b';' ∷ owner_info n)
unfolding render_hint
render_hint-set hint n c h = elim (Bool-cases (hint == [])) [
  | inl e ↦ absurd (h ((eq_iff hint []).0 e))
  | inr e ↦ rw e refl
]

contains-identity :
    (n rest : Text)
    → contains (expected_prefix ++ (n ++ (b':' ∷ rest))) (expected_prefix ++ (n ++ (b':' ∷ [])))
      ≡ true
contains-identity n rest =
    subst (λ x. contains (expected_prefix ++ x) (expected_prefix ++ (n ++ (b':' ∷ []))) ≡ true)
      (append_assoc n (b':' ∷ []) rest)
      (contains-append [] (expected_prefix ++ (n ++ (b':' ∷ []))) rest)

second-owner :
    (n c rest : Text)
    → Lacks b':' n
    → Lacks b':' c
    → second_is (split b':' (n ++ (b':' ∷ (c ++ (bytes ";owner" ++ (b':' ∷ rest)))))) c ≡ false
unfolding second_is
second-owner n c rest h k =
    rw
      (
        split-append b':' n (c ++ (bytes ";owner" ++ (b':' ∷ rest))) h,
        sym (append_assoc c (bytes ";owner") (b':' ∷ rest)),
        split-append b':' (c ++ bytes ";owner") rest
            (Lacks-append b':' c (bytes ";owner") k (omega arith)),
      )
      (longer c (bytes ";owner") (omega arith))

pub both_guards :
    (a b : Bool) {c : Bool} → c ≡ false → (if a then if b then c else false else false) ≡ false
both_guards true true h = h
both_guards true false h = refl
both_guards false b h = refl

module _ (sp : Spiffe) (k : Kube) (t : Templates) (identity : WorkloadIdentity k)
    (cluster : EksClusterRegistry) (pod : Pod) (node : Node) (trust_domain : Text) (e : Entry sp)
    (rendered : render_entry sp k t identity cluster pod node trust_domain ≡ ok e) where
  hint_is : e.hint ≡ render_hint identity.spec.hint identity.meta.name cluster.meta.name
  hint_is = (render_entry-IsRendered sp k t identity cluster pod node trust_domain e rendered).hint

  -- Of an identity with no hint of its own, every entry that is rendered belongs to it.
  pub entry_belongs_to_identity-own :
      identity.spec.hint ≡ [] → entry_belongs_to_identity sp k e identity ≡ true
  unfolding entry_belongs_to_identity ◌==◌
  entry_belongs_to_identity-own none_set =
      rw
        (
          none_set,
          hint_is,
          render_hint-unset identity.spec.hint identity.meta.name cluster.meta.name none_set,
        )
        (contains-identity identity.meta.name _)

  -- Of an identity with a hint of its own, no entry that is rendered belongs to it: the rendered hint
  -- has the owner mark behind the identity's, and the test wants the identity's alone.
  pub entry_belongs_to_identity-hinted :
      identity.spec.hint ≢ [] → entry_belongs_to_identity sp k e identity ≡ false
  unfolding entry_belongs_to_identity
  entry_belongs_to_identity-hinted set =
      let e' : (identity.spec.hint == []) ≡ false = not_empty in
      rw (e', hint_is, render_hint-set identity.spec.hint identity.meta.name cluster.meta.name set)
        (longer identity.spec.hint (b';' ∷ owner_info identity.meta.name) (omega arith))
    where
      not_empty : (identity.spec.hint == []) ≡ false
      not_empty = elim (Bool-cases (identity.spec.hint == [])) [
        | inl q ↦ absurd (set ((eq_iff identity.spec.hint []).0 q))
        | inr q ↦ q
      ]

  -- An entry rendered for an identity with no hint of its own does not belong to its own cluster,
  -- if the names have no colon: the part of the hint that is compared goes on to ";owner".
  pub entry_belongs_to_cluster-own :
      identity.spec.hint ≡ []
      → Lacks b':' identity.meta.name
      → Lacks b':' cluster.meta.name
      → entry_belongs_to_cluster sp e cluster ≡ false
  unfolding entry_belongs_to_cluster drop
  entry_belongs_to_cluster-own none_set n c =
      rw
        (
          hint_is,
          render_hint-unset identity.spec.hint identity.meta.name cluster.meta.name none_set,
        )
        (both_guards _ _ (second-owner identity.meta.name cluster.meta.name _ n c))
