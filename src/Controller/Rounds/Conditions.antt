-- ===== src/Controller/Rounds/Conditions.antt =====
-- The Ready condition of a cluster after a status update.
use spire_eks_workload_regis.Prelude.{
  ℕ, ◌≡◌, refl, ap, Bool, true, false, not, List, [], ◌∷◌, Option, none, some, keep, Bool-cases,
  inl, inr, if◌then◌else◌,
}
use spire_eks_workload_regis.Text.{Text, bytes, ◌==◌}
use spire_eks_workload_regis.Api.{Condition}
use spire_eks_workload_regis.Controller.Rounds.{set_condition, update_conditions}

-- The first condition of type Ready.
abbrev pub ready : List Condition → Option Condition
ready [] = none
ready (c ∷ cs) = if c.type == bytes "Ready" then some c else ready cs

abbrev pub is_other : Condition → Bool
is_other c = not (c.type == bytes "Ready")

-- The status of an optional condition.
abbrev pub status_of : Option Condition → Text
status_of none = []
status_of (some c) = c.status

-- After updateClusterConditions the first Ready condition is True for a connected cluster and False for
-- another, and the conditions of other types are the same, in the same order.
pub update_conditions-ready :
    (connected : Bool) (now : ℕ) (cs : List Condition)
    → (status_of (ready (update_conditions connected now cs))
        ≡ (if connected then bytes "True" else bytes "False"))
      × (keep is_other (update_conditions connected now cs) ≡ keep is_other cs)
unfolding update_conditions set_condition keep ◌==◌
update_conditions-ready true now [] = (refl, refl)
update_conditions-ready false now [] = (refl, refl)
update_conditions-ready true now (c ∷ cs) = elim (Bool-cases (c.type == bytes "Ready")) [
  | inl q ↦ rw q (rw q (refl, refl))
  | inr q ↦ let (a, b) = update_conditions-ready true now cs in rw q (rw q (a, ap (◌∷◌ c) b))
]
update_conditions-ready false now (c ∷ cs) = elim (Bool-cases (c.type == bytes "Ready")) [
  | inl q ↦ rw q (rw q (refl, refl))
  | inr q ↦ let (a, b) = update_conditions-ready false now cs in rw q (rw q (a, ap (◌∷◌ c) b))
]
