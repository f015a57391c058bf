-- ===== src/Text/Split.antt =====
-- strings.Split and strings.SplitN(s, sep, 2) at a separator of one byte.
use spire_eks_workload_regis.Prelude.{
  ℕ, ◌≡◌, ◌≢◌, refl, List, [], ◌∷◌, ◌++◌, arith, if◌then◌else◌, ◌==◌ as nat_eq,
}
use spire_eks_workload_regis.Text.{Text}

-- A byte before the first part.
abbrev pub extend_first : ℕ → List Text → List Text
extend_first c [] = (c ∷ []) ∷ []
extend_first c (p ∷ ps) = (c ∷ p) ∷ ps

-- strings.Split(s, sep)
unfoldable pub split : ℕ → Text → List Text
split sep [] = [] ∷ []
split sep (c ∷ s) =
    let rest = split sep s in if nat_eq c sep then [] ∷ rest else extend_first c rest

-- strings.SplitN(s, sep, 2)
unfoldable pub split_two : ℕ → Text → List Text
split_two sep [] = [] ∷ []
split_two sep (c ∷ s) =
    let rest = split_two sep s in if nat_eq c sep then [] ∷ s ∷ [] else extend_first c rest

-- The byte does not stand in the text.
abbrev pub Lacks : ℕ → Text → Type 0
Lacks c [] = Unit
Lacks c (d ∷ s) = (d ≢ c) × Lacks c s

pub split-Lacks : (sep : ℕ) (a : Text) → Lacks sep a → split sep a ≡ a ∷ []
unfolding split
split-Lacks sep [] h = refl
split-Lacks sep (c ∷ a) h = ground (arith, split-Lacks sep a h.1)

pub split-append : (sep : ℕ) (a b : Text) → Lacks sep a → split sep (a ++ sep ∷ b) ≡ a ∷ split sep b
unfolding split
split-append sep [] b h = ground arith
split-append sep (c ∷ a) b h = ground (arith, split-append sep a b h.1)

pub split_two-append :
    (sep : ℕ) (a b : Text) → Lacks sep a → split_two sep (a ++ sep ∷ b) ≡ a ∷ b ∷ []
unfolding split_two
split_two-append sep [] b h = ground arith
split_two-append sep (c ∷ a) b h = ground (arith, split_two-append sep a b h.1)

pub split_two-Lacks : (sep : ℕ) (a : Text) → Lacks sep a → split_two sep a ≡ a ∷ []
unfolding split_two
split_two-Lacks sep [] h = refl
split_two-Lacks sep (c ∷ a) h = ground (arith, split_two-Lacks sep a h.1)

pub Lacks-append : (sep : ℕ) (a b : Text) → Lacks sep a → Lacks sep b → Lacks sep (a ++ b)
Lacks-append sep [] b h k = k
Lacks-append sep (c ∷ a) b h k = (h.0, Lacks-append sep a b h.1 k)
