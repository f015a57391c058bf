-- ===== src/Controller/Reliable/Removal.antt =====
-- What a store of entries loses in a loop of deletions, said without the loop's test.
use spire_eks_workload_regis.Prelude.{
  ◌≡◌, refl, ◌∙◌, ◌↔◌, Bool, true, some, none, Bool-cases, inl, inr,
}
use spire_eks_workload_regis.Prelude.Maps.{Map, lookup}
use spire_eks_workload_regis.Text.{Text}
use spire_eks_workload_regis.Api.{text_keys}
use spire_eks_workload_regis.SpireApi.{Spiffe, Entry, Client}
use spire_eks_workload_regis.Controller.Reliable.{Reliable, drop_if}

-- The entries with the property are gone, all others are as they were, and there is no new one.
pub record RemovesExactly (sp : Spiffe) (P : Entry sp → Type 0) (before after : Map Text (Entry sp))
    : Type 0 where
  pub removed :
      (id : Text) (e : Entry sp)
      → lookup text_keys id before ≡ some e
      → P e
      → lookup text_keys id after ≡ none
  pub kept :
      (id : Text) (e : Entry sp)
      → lookup text_keys id before ≡ some e
      → ¬ P e
      → lookup text_keys id after ≡ some e
  pub none_new : (id : Text) → lookup text_keys id before ≡ none → lookup text_keys id after ≡ none

pub drop_if-RemovesExactly :
    (sp : Spiffe) (cl : Client sp) (r : Reliable sp cl) (p : Entry sp → Bool)
    (P : Entry sp → Type 0) (before after : Map Text (Entry sp))
    → ((e : Entry sp) → (p e ≡ true) ↔ P e)
    → ((id : Text) → lookup text_keys id after ≡ drop_if sp cl r p (lookup text_keys id before))
    → RemovesExactly sp P before after
drop_if-RemovesExactly sp cl r p P before after means dropped = record {
  removed = λ id e h q. dropped id ∙ rw (h, (means e).1 q) refl;
  kept = λ id e h n. elim (Bool-cases (p e)) [
    | inl q ↦ absurd (n ((means e).0 q))
    | inr q ↦ dropped id ∙ rw (h, q) refl
  ];
  none_new = λ id h. dropped id ∙ rw h refl;
}
