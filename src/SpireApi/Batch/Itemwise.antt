-- ===== src/SpireApi/Batch/Itemwise.antt =====
-- Batching is invisible: where the service answers a batch item by item, a batch call is one pass
-- over the items, whatever their number.
use spire_eks_workload_regis.Prelude.{
  ℕ, suc, ◌+◌, ◌-◌, ◌≤◌, ◌<◌, ◌≡◌, refl, sym, ap, ◌∙◌, List, [], ◌∷◌, ◌++◌, map, append_assoc,
  append-nil, Option, some, Result, ok, arith, length, take, drop,
}
use spire_eks_workload_regis.Prelude.Exec.{Exec}
use spire_eks_workload_regis.Text.{Text}
use spire_eks_workload_regis.SpireApi.{Spiffe, Entry, Status, ApiStatus, status_from_api}
use spire_eks_workload_regis.SpireApi.Convert.{ApiEntry, to_api_entry, entries_to_api}
use spire_eks_workload_regis.SpireApi.Batch.{
  CreateResult, EntryService, collect, send_batch, in_batches, create_status, plain_status,
  batch_create_entries, batch_update_entries, batch_delete_entries,
}
use spire_eks_workload_regis.SpireApi.Batch.Loop.{run_batch-all}

module _ {X R State : Type 0} (one : X → State → R × State) where
  -- One item after the other.
  unfoldable pub each : List X → State → List R × State
  each [] s = ([], s)
  each (x ∷ xs) s = ((one x s).0 ∷ (each xs (one x s).1).0, (each xs (one x s).1).1)

  pub length-each : (xs : List X) (s : State) → length (each xs s).0 ≡ length xs
  unfolding each
  length-each [] s = refl
  length-each (x ∷ xs) s = ap suc (length-each xs (one x s).1)

module _ {X R State : Type 0} (one : X → State → R × State) (st : R → Status) where
  -- The statuses so far and the state, after the items.
  abbrev pub finish : List X → List Status × State → List Status × State
  finish xs (statuses, s) = (statuses ++ map st (each one xs s).0, (each one xs s).1)

  finish-cons :
      (x : X) (a : List X) (l : List Status) (s : State)
      → finish (x ∷ a) (l, s) ≡ finish a (l ++ st (one x s).0 ∷ [], (one x s).1)
  unfolding each
  finish-cons x a l s = rw append_assoc

  finish-append :
      (a b : List X) (p : List Status × State) → finish (a ++ b) p ≡ finish b (finish a p)
  unfolding each
  finish-append [] b (l, s) = rw append-nil
  finish-append (x ∷ a) b (l, s) =
      finish-cons x (a ++ b) l s
      ∙ finish-append a b (l ++ st (one x s).0 ∷ [], (one x s).1)
      ∙ ap (finish b) (sym (finish-cons x a l s))

module _ {X R State : Type 0} (one : X → State → R × State) (st : R → Status)
    (call : List X → Exec State (List R)) (status_of : List X → ℕ → R → Result Status)
    (answers : (b : List X) (s : State) → call b s ≡ (ok (each one b s).0, (each one b s).1))
    (reads : (b : List X) (i : ℕ) (r : R) → i < length b → status_of b i r ≡ ok (st r)) where
  collect-all :
      (b : List X) (i : ℕ) (rs : List R) (l : List Status)
      → i + length rs ≤ length b
      → collect call status_of b i rs l ≡ ok (l ++ map st rs)
  unfolding collect
  collect-all b i [] l h = rw append-nil
  collect-all b i (r ∷ rs) l h = rw (
    reads b i r (omega arith),
    collect-all b (suc i) rs (l ++ st r ∷ []) (omega arith),
    append_assoc,
  )

  send_batch-finish :
      (xs : List X) (i j : ℕ) (p : List Status × State)
      → send_batch call status_of xs i j p ≡ (ok tt, finish one st (take (j - i) (drop i xs)) p)
  unfolding send_batch
  send_batch-finish xs i j (l, s) =
      let b = take (j - i) (drop i xs) in
      rw (answers b s, collect-all b 0 (each one b s).0 l (omega (arith, length-each one b s)))

  pub in_batches-each :
      (size : ℕ) (xs : List X) (s : State)
      → 0 < size
      → in_batches call status_of size xs s
        ≡ some (ok tt, (map st (each one xs s).0, (each one xs s).1))
  unfolding in_batches each
  in_batches-each size xs s h =
      run_batch-all (finish one st) xs size (send_batch call status_of xs) h (λ p. rw append-nil)
        (finish-append one st) (λ i j p _ _ _. send_batch-finish xs i j p) ([], s)

plain_status-index :
    {X : Type 0} (b : List X) (i : ℕ) (r : Option ApiStatus)
    → i < length b
    → plain_status b i r ≡ ok (status_from_api r)
unfolding plain_status
plain_status-index b i r h = ground arith

create_status-index :
    (sp : Spiffe) (b : List (Entry sp)) (i : ℕ) (r : CreateResult)
    → i < length b
    → create_status b i r ≡ ok (status_from_api r.status)
unfolding create_status
create_status-index sp b i r h = ground arith

module _ (service : EntryService) where
  open service use {State}

  -- If the service answers each delete batch item by item, with one result for each ID in the
  -- order sent, then deleting any number of IDs returns, with no error and within the fuel given,
  -- the status of every ID in order, and the service is left as by one pass over the IDs.
  pub batch_delete_entries-each :
      (one : Text → State → Option ApiStatus × State)
      → ((b : List Text) (s : State)
          → service.batch_delete_entry b s ≡ (ok (each one b s).0, (each one b s).1))
      → (ids : List Text) (s : State)
      → batch_delete_entries service ids s
        ≡ some (ok tt, (map status_from_api (each one ids s).0, (each one ids s).1))
  unfolding batch_delete_entries
  batch_delete_entries-each one answers ids s =
      in_batches-each one status_from_api service.batch_delete_entry plain_status answers
        plain_status-index 200 ids s (omega arith)

module _ (sp : Spiffe) (service : EntryService) where
  open service use {State}

  each-map :
      {R : Type 0} (one : ApiEntry → State → R × State) (b : List (Entry sp)) (s : State)
      → each one (entries_to_api sp b) s ≡ each (λ e. one (to_api_entry sp e)) b s
  unfolding each entries_to_api
  each-map one [] s = refl
  each-map one (e ∷ b) s = rw (each-map one b (one (to_api_entry sp e) s).1)

  -- If the service answers each create batch entry by entry, with one result for each entry in the
  -- order sent, then creating any number of entries returns, with no error and within the fuel
  -- given, the status of every entry in order, and the service is left as by one pass over the
  -- converted entries.
  pub batch_create_entries-each :
      (one : ApiEntry → State → CreateResult × State)
      → ((b : List ApiEntry) (s : State)
          → service.batch_create_entry b s ≡ (ok (each one b s).0, (each one b s).1))
      → (entries : List (Entry sp)) (s : State)
      → let done = each one (entries_to_api sp entries) s in
        batch_create_entries sp service entries s
        ≡ some (ok tt, (map (λ r. status_from_api r.status) done.0, done.1))
  unfolding batch_create_entries
  batch_create_entries-each one answers entries s = rw each-map (
      in_batches-each (λ e. one (to_api_entry sp e)) (λ r. status_from_api r.status)
        (λ b. service.batch_create_entry (entries_to_api sp b)) create_status
        (λ b t. rw (answers (entries_to_api sp b) t, each-map one b t)) (create_status-index sp) 50
        entries s (omega arith))

  -- If the service answers each update batch entry by entry, with one status for each entry in the
  -- order sent, then updating any number of entries returns, with no error and within the fuel
  -- given, the status of every entry in order, and the service is left as by one pass over the
  -- converted entries.
  pub batch_update_entries-each :
      (one : ApiEntry → State → Option ApiStatus × State)
      → ((b : List ApiEntry) (s : State)
          → service.batch_update_entry b s ≡ (ok (each one b s).0, (each one b s).1))
      → (entries : List (Entry sp)) (s : State)
      → let done = each one (entries_to_api sp entries) s in
        batch_update_entries sp service entries s
        ≡ some (ok tt, (map status_from_api done.0, done.1))
  unfolding batch_update_entries
  batch_update_entries-each one answers entries s = rw each-map (
      in_batches-each (λ e. one (to_api_entry sp e)) status_from_api
        (λ b. service.batch_update_entry (entries_to_api sp b)) plain_status
        (λ b t. rw (answers (entries_to_api sp b) t, each-map one b t)) plain_status-index 50
        entries s (omega arith))
