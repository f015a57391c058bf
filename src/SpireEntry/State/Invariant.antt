-- ===== src/SpireEntry/State/Invariant.antt =====
-- The well-formedness of a state: each map has one entry for a key, under the entry's own ID.
use spire_eks_workload_regis.Prelude.{◌≡◌, inl, inr, [], some, arith, Bool-cases}
use spire_eks_workload_regis.Prelude.Maps.{
  Map, lookup, insert, Unique, lookup-insert, insert-Unique,
}
use spire_eks_workload_regis.Text.{Text, ◌==◌, eq_iff}
use spire_eks_workload_regis.Api.{text_keys}
use spire_eks_workload_regis.SpireApi.{Spiffe, Entry}
use spire_eks_workload_regis.SpireEntry.State.{
  EntriesState, new_entries_state_with_prefix, add_current, declared_id, add_declared,
}

module _ (sp : Spiffe) where
  pub record IsKeyed (m : Map Text (Entry sp)) : Type 0 where
    pub unique : Unique text_keys m
    pub own_id : (k : Text) (e : Entry sp) → lookup text_keys k m ≡ some e → e.id ≡ k

  pub record IsWellFormed (s : EntriesState sp) : Type 0 where
    pub current : IsKeyed s.current
    pub declared : IsKeyed s.declared

  nil-IsKeyed : IsKeyed []
  unfolding lookup
  nil-IsKeyed = record { unique = tt; own_id = λ k e h. cc h }

  pub insert-IsKeyed :
      (e : Entry sp) (m : Map Text (Entry sp)) → IsKeyed m → IsKeyed (insert text_keys e.id e m)
  insert-IsKeyed e m h = record {
    unique = insert-Unique text_keys e.id e m h.unique;
    own_id = λ k x q. elim (Bool-cases (e.id == k)) [
      | inl same ↦ ground (arith, lookup-insert text_keys e.id k e m, eq_iff e.id k, same, q)
      | inr other ↦ h.own_id k x (ground (arith, lookup-insert text_keys e.id k e m, other, q))
    ];
  }

  -- The states that the program makes.
  pub data Built (digest : Text → Text) : EntriesState sp → Type 0 where
    new : (prefix : Text) → Built digest (new_entries_state_with_prefix sp prefix)
    current :
        {s : EntriesState sp} (e : Entry sp) → Built digest s → Built digest (add_current sp s e)
    declared :
        {s : EntriesState sp} (e : Entry sp)
        → Built digest s
        → Built digest (add_declared sp digest s e)

  -- However a state came about by NewEntriesStateWithPrefix, AddCurrent and AddDeclared, each of
  -- its two maps has one entry for a key, and the entry's ID is the key.
  pub Built-IsWellFormed :
      {digest : Text → Text} {s : EntriesState sp} → Built digest s → IsWellFormed s
  unfolding new_entries_state_with_prefix add_current add_declared
  Built-IsWellFormed (new prefix) = record { current = nil-IsKeyed; declared = nil-IsKeyed }
  Built-IsWellFormed (current {s = s} e b) =
      let w = Built-IsWellFormed b in
      record { current = insert-IsKeyed e s.current w.current; declared = w.declared }
  Built-IsWellFormed {digest = digest} (declared {s = s} e b) =
      let w = Built-IsWellFormed b in
      record {
        current = w.current;
        declared =
            insert-IsKeyed (record e { id = declared_id sp digest s.entry_prefix e }) s.declared
              w.declared;
      }
