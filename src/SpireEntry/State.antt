-- ===== src/SpireEntry/State.antt =====
-- internal/spireentry/state.go: the entries that SPIRE has and those that the clusters declare,
-- and the changes that lead from the first to the second. A map is listed in the order of one
-- iteration over it, which Go leaves open.
pub mod Equality
pub mod Invariant
pub mod Exact
pub mod Store
pub mod Rounds
pub mod Stable
use spire_eks_workload_regis.Prelude.{
  ◌≡◌, Bool, true, false, not, ◌&&◌, ◌||◌, List, [], ◌∷◌, ◌++◌, Option, none, some, if◌then◌else◌,
  length, all, ltb, ◌==◌ as nat_eq,
}
use spire_eks_workload_regis.Prelude.Maps.{Map, lookup, insert}
use spire_eks_workload_regis.Text.{Text, ◌==◌}
use spire_eks_workload_regis.Api.{text_keys}
use spire_eks_workload_regis.SpireApi.{Spiffe, Entry, Selector}
use spire_eks_workload_regis.SpireEntry.Compare.{outdated_entry_fields}
use spire_eks_workload_regis.SpireEntry.Key.{make_entry_key}

-- type entriesState
pub record EntriesState (sp : Spiffe) : Type 0 where
  pub current : Map Text (Entry sp)
  pub declared : Map Text (Entry sp)
  pub entry_prefix : Text

-- The three results of GetChanges.
pub record Changes (sp : Spiffe) : Type 0 where
  pub to_create : List (Entry sp)
  pub to_update : List (Entry sp)
  pub to_delete : List (Entry sp)

-- aSelectors[sel.Type] = sel.Value, for each selector
unfoldable pub selector_map : List Selector → Map Text Text → Map Text Text
selector_map [] m = m
selector_map (s ∷ l) m = selector_map l (insert text_keys s.type s.value m)

-- val, ok := aSelectors[sel.Type]; ok && val == sel.Value
abbrev pub value_is : Option Text → Text → Bool
value_is none v = false
value_is (some w) v = w == v

unfoldable pub selectors_in : Map Text Text → List Selector → Bool
selectors_in m [] = true
selectors_in m (s ∷ l) = value_is (lookup text_keys s.type m) s.value && selectors_in m l

module _ (sp : Spiffe) where
  -- NewEntriesStateWithPrefix
  unfoldable pub new_entries_state_with_prefix : Text → EntriesState sp
  new_entries_state_with_prefix prefix = record {
    current = [];
    declared = [];
    entry_prefix = prefix;
  }

  -- NewEntriesState
  unfoldable pub new_entries_state : EntriesState sp
  unfolding new_entries_state_with_prefix
  new_entries_state = new_entries_state_with_prefix []

  -- AddCurrent
  unfoldable pub add_current : EntriesState sp → Entry sp → EntriesState sp
  add_current s entry = record s { current = insert text_keys entry.id entry s.current }

  -- The ID of a declared entry: the prefix, if there is one, and the key.
  unfoldable pub declared_id : (Text → Text) → Text → Entry sp → Text
  declared_id digest prefix entry =
      let key = make_entry_key sp digest entry in if not (prefix == []) then prefix ++ key else key

  -- AddDeclared; the identity, the cluster and the pod are not used
  unfoldable pub add_declared : (Text → Text) → EntriesState sp → Entry sp → EntriesState sp
  add_declared digest s entry =
      let entry' = record entry { id = declared_id digest s.entry_prefix entry } in
      record s { declared = insert text_keys entry'.id entry' s.declared }

  -- entriesEqual
  unfoldable pub entries_equal : Entry sp → Entry sp → Bool
  entries_equal a b =
      if not (sp.id_eq a.spiffe_id b.spiffe_id) || not (sp.id_eq a.parent_id b.parent_id)
      then false
      else if not (nat_eq (length a.selectors) (length b.selectors))
      then false
      else if not (selectors_in (selector_map a.selectors []) b.selectors)
      then false
      else not (ltb 0 (length (outdated_entry_fields sp b a)))

  -- if _, exists := m[id]; !exists { list = append(list, e) }
  abbrev pub if_missing : Option (Entry sp) → Entry sp → List (Entry sp) → List (Entry sp)
  if_missing none e rest = e ∷ rest
  if_missing (some c) e rest = rest

  -- else if !s.entriesEqual(current, declared) { declared.ID = current.ID; ... }
  abbrev pub if_outdated : Option (Entry sp) → Entry sp → List (Entry sp) → List (Entry sp)
  if_outdated none d rest = rest
  if_outdated (some c) d rest =
      if not (entries_equal c d) then record d { id = c.id } ∷ rest else rest

  -- The first loop of GetChanges, over `declared`.
  unfoldable pub creates : Map Text (Entry sp) → Map Text (Entry sp) → List (Entry sp)
  creates current [] = []
  creates current ((id, d) ∷ m) =
      let rest = creates current m in if_missing (lookup text_keys id current) d rest

  unfoldable pub updates : Map Text (Entry sp) → Map Text (Entry sp) → List (Entry sp)
  updates current [] = []
  updates current ((id, d) ∷ m) =
      let rest = updates current m in if_outdated (lookup text_keys id current) d rest

  -- The second loop, over `current`.
  unfoldable pub deletes : Map Text (Entry sp) → Map Text (Entry sp) → List (Entry sp)
  deletes declared [] = []
  deletes declared ((id, c) ∷ m) =
      let rest = deletes declared m in if_missing (lookup text_keys id declared) c rest

  -- GetChanges
  unfoldable pub get_changes : EntriesState sp → Changes sp
  get_changes s = record {
    to_create = creates s.current s.declared;
    to_update = updates s.current s.declared;
    to_delete = deletes s.declared s.current;
  }
