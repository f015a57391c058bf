-- ===== src/Text/Search.antt =====
-- strings.Contains and strings.TrimPrefix.
use spire_eks_workload_regis.Prelude.{
  ◌≡◌, ap, ◌↔◌, inl, inr, Bool, true, ◌||◌, [], ◌∷◌, ◌++◌, arith, Bool-cases, length, drop,
  if◌then◌else◌, drop-append,
}
use spire_eks_workload_regis.Text.{Text, has_prefix, has_prefix-append, has_prefix-split}

-- strings.Contains(s, p)
unfoldable pub contains : Text → Text → Bool
contains [] p = has_prefix [] p
contains (c ∷ s) p = has_prefix (c ∷ s) p || contains s p

-- strings.TrimPrefix(s, p)
unfoldable pub trim_prefix : Text → Text → Text
trim_prefix s p = if has_prefix s p then drop (length p) s else s

abbrev pub Infix : Text → Text → Type 0
Infix p s = (a : Text) × (b : Text) × (s ≡ a ++ (p ++ b))

contains-Infix : (s p : Text) → contains s p ≡ true → Infix p s
unfolding contains
contains-Infix [] p h = let (r, e) = has_prefix-split [] p h in ([], r, e)
contains-Infix (c ∷ s) p h = elim (Bool-cases (has_prefix (c ∷ s) p)) [
  | inl e ↦ let (r, q) = has_prefix-split (c ∷ s) p e in ([], r, q)
  | inr e ↦ let (a, b, q) = contains-Infix s p (ground arith) in (c ∷ a, b, ap (◌∷◌ c) q)
]

pub contains-append : (a p b : Text) → contains (a ++ (p ++ b)) p ≡ true
unfolding contains
contains-append [] p b = contains_of_prefix (p ++ b) p (has_prefix-append p b)
  where
    contains_of_prefix : (s p : Text) → has_prefix s p ≡ true → contains s p ≡ true
    contains_of_prefix [] p h = h
    contains_of_prefix (c ∷ s) p h = rw h
contains-append (c ∷ a) p b = ground (arith, contains-append a p b)

-- `contains` finds a part of the text wherever it stands, and nothing else.
pub contains_iff : (s p : Text) → (contains s p ≡ true) ↔ Infix p s
contains_iff s p = (contains-Infix s p, λ (a, b, e). rw e (contains-append a p b))

pub trim_prefix-append : (p s : Text) → trim_prefix (p ++ s) p ≡ s
unfolding trim_prefix
trim_prefix-append p s = rw has_prefix-append (drop-append p s)
