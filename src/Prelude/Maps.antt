-- ===== src/Prelude/Maps.antt =====
-- Go maps with string keys, as association lists with at most one entry for each key. The list
-- order stands for the order of one iteration, which Go leaves open.
use mathlib.Core.Path.{◌≡◌, refl, ap}
use mathlib.Core.Logic.{◌↔◌, inl, inr}
use mathlib.Core.Bool.{Bool, true, false}
use mathlib.Core.Option.{Option, none, some}
use mathlib.Core.List.{List, [], ◌∷◌}
use native.Mathlib.Omega.{arith}
use spire_eks_workload_regis.Prelude.Tests.{if◌then◌else◌, Bool-cases}
use spire_eks_workload_regis.Prelude.Lists.{In}

-- Equality of keys is given, so that this module does not depend on their representation.
pub record KeyEq (K : Type 0) : Type 0 where
  pub eq : K → K → Bool
  pub eq_iff : (a b : K) → (eq a b ≡ true) ↔ (a ≡ b)

abbrev pub Map : Type 0 → Type 0 → Type 0
Map K V = List (K × V)

module _ {K V : Type 0} (k_eq : KeyEq K) where
  -- v, ok := m[k]
  unfoldable pub lookup : K → Map K V → Option V
  lookup k [] = none
  lookup k ((j, v) ∷ m) = if k_eq.eq j k then some v else lookup k m

  -- m[k] = v
  unfoldable pub insert : K → V → Map K V → Map K V
  insert k v [] = (k, v) ∷ []
  insert k v ((j, w) ∷ m) = if k_eq.eq j k then (j, v) ∷ m else (j, w) ∷ insert k v m

  -- delete(m, k)
  unfoldable pub delete : K → Map K V → Map K V
  delete k [] = []
  delete k ((j, w) ∷ m) = let rest = delete k m in if k_eq.eq j k then rest else (j, w) ∷ rest

  abbrev pub Unique : Map K V → Type 0
  Unique [] = Unit
  Unique ((j, w) ∷ m) = (lookup j m ≡ none) × Unique m

  pub lookup-insert :
      (k j : K) (v : V) (m : Map K V)
      → lookup j (insert k v m) ≡ (if k_eq.eq k j then some v else lookup j m)
  unfolding lookup insert
  lookup-insert k j v [] = refl
  lookup-insert k j v ((i, w) ∷ m) =
      ground (arith, k_eq.eq_iff k j, k_eq.eq_iff i k, k_eq.eq_iff i j, lookup-insert k j v m)

  pub lookup-delete :
      (k j : K) (m : Map K V) → lookup j (delete k m) ≡ (if k_eq.eq k j then none else lookup j m)
  unfolding lookup delete
  lookup-delete k j [] = ground arith
  lookup-delete k j ((i, w) ∷ m) =
      ground (arith, k_eq.eq_iff k j, k_eq.eq_iff i k, k_eq.eq_iff i j, lookup-delete k j m)

  pub lookup_same-insert : (k : K) (v : V) (m : Map K V) → lookup k (insert k v m) ≡ some v
  lookup_same-insert k v m = ground (arith, lookup-insert k k v m, k_eq.eq_iff k k)

  pub lookup_other-insert :
      (k j : K) (v : V) (m : Map K V) → k_eq.eq k j ≡ false → lookup j (insert k v m) ≡ lookup j m
  lookup_other-insert k j v m d = ground (arith, lookup-insert k j v m, d)

  pub lookup_same-delete : (k : K) (m : Map K V) → lookup k (delete k m) ≡ none
  lookup_same-delete k m = ground (arith, lookup-delete k k m, k_eq.eq_iff k k)

  pub lookup_other-delete :
      (k j : K) (m : Map K V) → k_eq.eq k j ≡ false → lookup j (delete k m) ≡ lookup j m
  lookup_other-delete k j m d = ground (arith, lookup-delete k j m, d)

  pub insert-Unique : (k : K) (v : V) (m : Map K V) → Unique m → Unique (insert k v m)
  unfolding insert lookup
  insert-Unique k v [] u = (refl, tt)
  insert-Unique k v ((i, w) ∷ m) u = elim (Bool-cases (k_eq.eq i k)) [
    | inl e ↦ rw e u
    | inr e ↦ rw e (
      ground (arith, lookup-insert k i v m, k_eq.eq_iff k i, k_eq.eq_iff i k),
      insert-Unique k v m u.1,
    )
  ]

  pub delete-Unique : (k : K) (m : Map K V) → Unique m → Unique (delete k m)
  unfolding delete lookup
  delete-Unique k [] u = tt
  delete-Unique k ((i, w) ∷ m) u = elim (Bool-cases (k_eq.eq i k)) [
    | inl e ↦ rw e (delete-Unique k m u.1)
    | inr e ↦ rw e (ground (arith, lookup-delete k i m), delete-Unique k m u.1)
  ]

  pub In-lookup : (k : K) (v : V) (m : Map K V) → lookup k m ≡ some v → In (k, v) m
  unfolding lookup
  In-lookup k v [] h = cc
  In-lookup k v ((j, w) ∷ m) h = elim (Bool-cases (k_eq.eq j k)) [
    | inl e ↦ inl (ground (arith, k_eq.eq_iff j k))
    | inr e ↦ inr (In-lookup k v m (ground arith))
  ]

  In-ne_none : (k : K) (v : V) (m : Map K V) → In (k, v) m → lookup k m ≡ none → ⊥
  unfolding lookup
  In-ne_none k v [] i h = i
  In-ne_none k v ((j, w) ∷ m) (inl e) h = ground (arith, ap (λ (p : K × V). p.0) e, k_eq.eq_iff j k)
  In-ne_none k v ((j, w) ∷ m) (inr i) h = In-ne_none k v m i (ground arith)

  pub lookup-In : (k : K) (v : V) (m : Map K V) → Unique m → In (k, v) m → lookup k m ≡ some v
  unfolding lookup
  lookup-In k v [] u i = absurd i
  lookup-In k v ((j, w) ∷ m) u (inl e) =
      ground (arith, ap (λ (p : K × V). p.0) e, ap (λ (p : K × V). p.1) e, k_eq.eq_iff j k)
  lookup-In k v ((j, w) ∷ m) u (inr i) = elim (Bool-cases (k_eq.eq j k)) [
    | inl e ↦ absurd (In-ne_none k v m i (rw (← ((k_eq.eq_iff j k).0 e)) u.0))
    | inr e ↦ rw e (lookup-In k v m u.1 i)
  ]
