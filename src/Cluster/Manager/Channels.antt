-- ===== src/Cluster/Manager/Channels.antt =====
-- How the stop channels of a table change with the table.
use spire_eks_workload_regis.Prelude.{
  ℕ, ◌+◌, ◌≡◌, refl, ap, ◌∙◌, List, [], ◌∷◌, none, some, if◌then◌else◌, ◌==◌ as nat_eq, Bool-cases,
  inl, inr, arith,
}
use spire_eks_workload_regis.Prelude.Maps.{Map, lookup, insert, delete, Unique}
use spire_eks_workload_regis.Text.{Text, ◌==◌, eq_iff}
use spire_eks_workload_regis.Api.{text_keys}
use spire_eks_workload_regis.Aws.{Sdk}
use spire_eks_workload_regis.Cluster.Manager.{ClusterConnection, count}

module _ (sdk : Sdk) where
  abbrev pub channels : Map Text (ClusterConnection sdk) → List ℕ
  channels [] = []
  channels ((k, c) ∷ m) = c.stop_ch ∷ channels m

  abbrev pub one : ClusterConnection sdk → ℕ → ℕ
  one c x = if nat_eq c.stop_ch x then 1 else 0

  pub count-insert_new :
      (x : ℕ) (k : Text) (c : ClusterConnection sdk) (m : Map Text (ClusterConnection sdk))
      → lookup text_keys k m ≡ none
      → count x (channels (insert text_keys k c m)) ≡ one c x + count x (channels m)
  unfolding count lookup insert
  count-insert_new x k c [] h = refl
  count-insert_new x k c ((j, d) ∷ m) h = elim (Bool-cases (j == k)) [
    | inl q ↦ cc (rw q at h)
    | inr q ↦ rw q (omega (arith, count-insert_new x k c m (rw q at h)))
  ]

  pub count-replace :
      (x : ℕ) (k : Text) (c d : ClusterConnection sdk) (m : Map Text (ClusterConnection sdk))
      → lookup text_keys k m ≡ some d
      → c.stop_ch ≡ d.stop_ch
      → count x (channels (insert text_keys k c m)) ≡ count x (channels m)
  unfolding count lookup insert
  count-replace x k c d [] h s = cc h
  count-replace x k c d ((j, e) ∷ m) h s = elim (Bool-cases (j == k)) [
    | inl q ↦
        let found : some e ≡ some d = rw q at h in
        let same : e ≡ d = cc found in rw (q, same, s) refl
    | inr q ↦ rw q (ap (◌+◌ (one e x)) (count-replace x k c d m (rw q at h) s))
  ]

  delete_absent :
      (k : Text) (m : Map Text (ClusterConnection sdk))
      → lookup text_keys k m ≡ none
      → delete text_keys k m ≡ m
  unfolding lookup delete
  delete_absent k [] h = refl
  delete_absent k ((j, e) ∷ m) h = elim (Bool-cases (j == k)) [
    | inl q ↦ cc (rw q at h)
    | inr q ↦ rw q (ap (◌∷◌ (j, e)) (delete_absent k m (rw q at h)))
  ]

  pub count-delete :
      (x : ℕ) (k : Text) (c : ClusterConnection sdk) (m : Map Text (ClusterConnection sdk))
      → Unique text_keys m
      → lookup text_keys k m ≡ some c
      → count x (channels m) ≡ one c x + count x (channels (delete text_keys k m))
  unfolding count lookup delete
  count-delete x k c [] u h = cc h
  count-delete x k c ((j, e) ∷ m) u h = elim (Bool-cases (j == k)) [
    | inl q ↦
        let found : some e ≡ some c = rw q at h in
        let same : e ≡ c = cc found in
        let gone : lookup text_keys k m ≡ none = rw (← (eq_iff j k).0 q) u.0 in
        rw (q, same, delete_absent k m gone) refl
    | inr q ↦ rw q (omega (arith, count-delete x k c m u.1 (rw q at h)))
  ]

  pub count-lookup :
      (k : Text) (c : ClusterConnection sdk) (m : Map Text (ClusterConnection sdk))
      → Unique text_keys m
      → lookup text_keys k m ≡ some c
      → (n : ℕ) × (count c.stop_ch (channels m) ≡ 1 + n)
  count-lookup k c m u h =
      let own : one c c.stop_ch ≡ 1 = ground arith in
      (
        count c.stop_ch (channels (delete text_keys k m)),
        count-delete c.stop_ch k c m u h ∙ rw own refl,
      )
