-- ===== src/Prelude/Sorting.antt =====
-- Insertion sort by a Boolean total order. Items that tie are equal, so every sorting
-- algorithm returns this list.
use mathlib.Core.Path.{◌≡◌, refl, sym, ◌∙◌, subst}
use mathlib.Core.Logic.{◌⊎◌, inl, inr}
use mathlib.Core.Bool.{Bool, true}
use mathlib.Core.List.{List, [], ◌∷◌, Perm, Permᴰ}
use mathlib.Core.List.Perm
use mathlib.Core.Logic.{∥∥₁_elim}
use native.Mathlib.Omega.{arith}
use spire_eks_workload_regis.Prelude.Tests.{if◌then◌else◌, Bool-cases}

pub record Order (A : Type 0) : Type 0 where
  pub le : A → A → Bool
  pub total : (a b : A) → (le a b ≡ true) ⊎ (le b a ≡ true)
  pub antisym : (a b : A) → le a b ≡ true → le b a ≡ true → a ≡ b
  pub trans : (a b c : A) → le a b ≡ true → le b c ≡ true → le a c ≡ true

module _ {A : Type 0} (o : Order A) where
  unfoldable pub insert_sorted : A → List A → List A
  insert_sorted x [] = x ∷ []
  insert_sorted x (y ∷ ys) = if o.le x y then x ∷ y ∷ ys else y ∷ insert_sorted x ys

  unfoldable pub sort : List A → List A
  sort [] = []
  sort (x ∷ xs) = insert_sorted x (sort xs)

  insert_comm :
      (x y : A) (l : List A)
      → insert_sorted x (insert_sorted y l) ≡ insert_sorted y (insert_sorted x l)
  unfolding insert_sorted
  insert_comm x y [] = ground (arith, o.total x y, o.antisym x y)
  insert_comm x y (z ∷ l) = ground (
    arith,
    o.total x y,
    o.total x z,
    o.total y z,
    o.antisym x y,
    o.antisym y x,
    o.trans x y z,
    o.trans y x z,
    o.trans x z y,
    o.trans y z x,
    insert_comm x y l,
  )

  sort-permᴰ : {xs ys : List A} → Permᴰ xs ys → sort xs ≡ sort ys
  unfolding sort
  sort-permᴰ Permᴰ.nil = refl
  sort-permᴰ (Permᴰ.cons e p) = cc (e, sort-permᴰ p)
  sort-permᴰ (Permᴰ.swap {a = a} {b = b} {l = l} e f) = cc (e, f, insert_comm a b (sort l))
  sort-permᴰ (Permᴰ.trans p q) = sort-permᴰ p ∙ sort-permᴰ q

  insert_sorted-perm : (x : A) (l : List A) → Perm (insert_sorted x l) (x ∷ l)
  unfolding insert_sorted
  insert_sorted-perm x [] = Perm.refl (x ∷ [])
  insert_sorted-perm x (y ∷ l) = elim (Bool-cases (o.le x y)) [
    | inl e ↦ rw e (Perm.refl (x ∷ y ∷ l))
    | inr e ↦ rw e (Perm.trans (Perm.cons y (insert_sorted-perm x l)) (Perm.swap x y l))
  ]

  pub sort-perm : (l : List A) → Perm (sort l) l
  unfolding sort
  sort-perm [] = Perm.nil
  sort-perm (x ∷ l) = Perm.trans (insert_sorted-perm x (sort l)) (Perm.cons x (sort-perm l))

  -- Two lists have one sorted form exactly when they are rearrangements of one another.
  pub sort-eq_of_perm : IsSet A → {xs ys : List A} → Perm xs ys → sort xs ≡ sort ys
  sort-eq_of_perm s p = ∥∥₁_elim p (lists s _ _) sort-permᴰ
    where
      lists : IsSet A → IsSet (List A)
      lists s = hlevel s

  pub perm_of_sort-eq : {xs ys : List A} → sort xs ≡ sort ys → Perm xs ys
  perm_of_sort-eq {xs} {ys} e =
      Perm.trans (Perm.symm (sort-perm xs)) (subst (λ l. Perm l ys) (sym e) (sort-perm ys))
