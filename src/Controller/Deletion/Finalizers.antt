-- ===== src/Controller/Deletion/Finalizers.antt =====
-- What adding and removing a finalizer does to a list.
use spire_eks_workload_regis.Prelude.{
  In, In-keep, keep-In, any-In, any_of_In, subst, ℕ, Option, some, none, ◌<◌, ◌≢◌, ◌↔◌, ◌≡◌, refl,
  ap, true, false, not, List, [], ◌∷◌, ◌++◌, any, keep, Bool-cases, inl, inr, arith,
}
use spire_eks_workload_regis.Text.{Text, ◌==◌, eq_iff, eq_refl}
use spire_eks_workload_regis.Controller.Deletion.{
  contains_finalizer, add_finalizer, remove_finalizer, is_zero, spire_cleanup_finalizer,
}
use spire_eks_workload_regis.Api.{Kube, WorkloadIdentity}

any-append_one : (l : List Text) (f : Text) → any (λ x. x == f) (l ++ (f ∷ [])) ≡ true
unfolding any
any-append_one [] f = rw (eq_refl f) refl
any-append_one (x ∷ l) f = ground (arith, any-append_one l f)

keep-append_one :
    (l : List Text) (f : Text)
    → keep (λ x. not (x == f)) (l ++ (f ∷ [])) ≡ keep (λ x. not (x == f)) l
unfolding keep
keep-append_one [] f = rw (eq_refl f) refl
keep-append_one (x ∷ l) f = rw (keep-append_one l f) refl

any-keep-not : (l : List Text) (f : Text) → any (λ x. x == f) (keep (λ x. not (x == f)) l) ≡ false
unfolding any keep
any-keep-not [] f = refl
any-keep-not (x ∷ l) f = elim (Bool-cases (x == f)) [
  | inl e ↦ rw e (any-keep-not l f)
  | inr e ↦ rw (e, e) (any-keep-not l f)
]

keep-none :
    (l : List Text) (f : Text) → any (λ x. x == f) l ≡ false → keep (λ x. not (x == f)) l ≡ l
unfolding any keep
keep-none [] f h = refl
keep-none (x ∷ l) f h = elim (Bool-cases (x == f)) [
  | inl e ↦ cc (rw e at h)
  | inr e ↦ rw e (ap (◌∷◌ x) (keep-none l f (rw e at h)))
]

-- Whatever the list, AddFinalizer leaves the finalizer in it and RemoveFinalizer leaves no copy of
-- it; adding twice is adding once, and removing what was added to a list without it restores the
-- list.
pub add_finalizer-remove_finalizer :
    (l : List Text) (f : Text)
    → (contains_finalizer (add_finalizer l f) f ≡ true)
      × (contains_finalizer (remove_finalizer l f) f ≡ false)
      × (add_finalizer (add_finalizer l f) f ≡ add_finalizer l f)
      × (contains_finalizer l f ≡ false → remove_finalizer (add_finalizer l f) f ≡ l)
unfolding contains_finalizer add_finalizer remove_finalizer
add_finalizer-remove_finalizer l f = elim (Bool-cases (any (λ x. x == f) l)) [
  | inl e ↦ (rw e e, any-keep-not l f, rw (e, e) refl, (λ h. cc (e, h)))
  | inr e ↦ (
    rw e (any-append_one l f),
    any-keep-not l f,
    rw (e, any-append_one l f) refl,
    (λ h. rw e (rw (keep-append_one l f) (keep-none l f e))),
  )
]

In-remove_finalizer :
    (l : List Text) (g f : Text) → In f (remove_finalizer l g) ↔ (In f l × (f ≢ g))
unfolding remove_finalizer
In-remove_finalizer l g f = (
  (λ i. let (j, q) = In-keep (λ x. not (x == g)) f l i in (j, λ e. cc (rw (e, eq_refl g) at q))),
  (λ (j, n). keep-In (λ x. not (x == g)) f l j (not_eq n)),
)
  where
    not_eq : f ≢ g → not (f == g) ≡ true
    not_eq n = elim (Bool-cases (f == g)) [
      | inl e ↦ absurd (n ((eq_iff f g).0 e))
      | inr e ↦ rw e refl
    ]

pub contains_finalizer_iff : (l : List Text) (f : Text) → (contains_finalizer l f ≡ true) ↔ In f l
unfolding contains_finalizer
contains_finalizer_iff l f = (
  (λ h. let (x, i, q) = any-In (λ x. x == f) l h in subst (λ y. In y l) ((eq_iff x f).0 q) i),
  (λ i. any_of_In (λ x. x == f) f l i (eq_refl f)),
)

-- A deletion timestamp that is set.
abbrev pub IsDeletedAt : Option ℕ → Type 0
IsDeletedAt o = (at : ℕ) × (o ≡ some at) × (0 < at)

pub is_zero-IsDeletedAt : (o : Option ℕ) → (is_zero o ≡ false) ↔ IsDeletedAt o
unfolding is_zero
is_zero-IsDeletedAt none = ((λ h. cc h), (λ (at, e, l). cc e))
is_zero-IsDeletedAt (some at) = ((λ h. (at, refl, ground arith)), (λ (n, e, l). ground arith))

-- The identity without the cleanup finalizer, and with all else that it had.
pub record IsReleased {k : Kube} (old new : WorkloadIdentity k) : Type 0 where
  pub finalizers :
      (f : Text)
      → In f new.meta.finalizers ↔ (In f old.meta.finalizers × (f ≢ spire_cleanup_finalizer))
  pub same_else : new ≡ record old { meta = record old.meta { finalizers = new.meta.finalizers } }

pub remove_finalizer-IsReleased :
    {k : Kube} (i : WorkloadIdentity k)
    → IsReleased i (record i {
      meta = record i.meta {
        finalizers = remove_finalizer i.meta.finalizers spire_cleanup_finalizer;
      };
    })
remove_finalizer-IsReleased i = record {
  finalizers = λ f. In-remove_finalizer i.meta.finalizers spire_cleanup_finalizer f;
  same_else = refl;
}
