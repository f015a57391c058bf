-- ===== src/Text/Order.antt =====
-- The order of Go strings, byte by byte, which `sort.Strings` sorts by.
use native.Mathlib.Nat.{ℕ_set}
use spire_eks_workload_regis.Prelude.{
  ◌≡◌, refl, ◌⊎◌, Bool, true, false, not, [], ◌∷◌, arith, ltb, if◌then◌else◌, ◌==◌ as nat_eq,
}
use spire_eks_workload_regis.Prelude.Sorting.{Order}
use spire_eks_workload_regis.Text.{Text}

-- s < t
unfoldable pub less : Text → Text → Bool
less s [] = false
less [] (d ∷ t) = true
less (c ∷ s) (d ∷ t) = let rest = less s t in if nat_eq c d then rest else ltb c d

pub less_total : (s t : Text) → (not (less t s) ≡ true) ⊎ (not (less s t) ≡ true)
unfolding less
less_total [] t = ground arith
less_total (c ∷ s) [] = ground arith
less_total (c ∷ s) (d ∷ t) = ground (arith, less_total s t)

pub less_antisym : (s t : Text) → not (less t s) ≡ true → not (less s t) ≡ true → s ≡ t
unfolding less
less_antisym [] [] h k = refl
less_antisym [] (d ∷ t) h k = cc
less_antisym (c ∷ s) [] h k = cc
less_antisym (c ∷ s) (d ∷ t) h k = ground (arith, less_antisym s t)

pub less_trans :
    (s t u : Text) → not (less t s) ≡ true → not (less u t) ≡ true → not (less u s) ≡ true
unfolding less
less_trans [] t [] h k = refl
less_trans [] t (e ∷ u) h k = refl
less_trans (c ∷ s) [] u h k = cc
less_trans (c ∷ s) (d ∷ t) [] h k = cc
less_trans (c ∷ s) (d ∷ t) (e ∷ u) h k = ground (arith, less_trans s t u)

abbrev pub text_order : Order Text
text_order = record {
  le = λ s t. not (less t s);
  total = less_total;
  antisym = less_antisym;
  trans = less_trans;
}

pub Text-set : IsSet Text
Text-set = hlevel ℕ_set
