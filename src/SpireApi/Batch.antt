-- ===== src/SpireApi/Batch.antt =====
-- pkg/spireapi/client.go: `runBatch` and the three batch calls. The gRPC service is a parameter.
-- Loops take fuel: `none` means that it ran out.
pub mod Loop
pub mod Itemwise
use spire_eks_workload_regis.Prelude.{
  ℕ, zero, suc, ◌+◌, ◌-◌, ◌≡◌, Bool, List, [], ◌∷◌, ◌++◌, Option, none, some, Result, ok, err,
  panic, ltb, leb, ◌==◌, if◌then◌else◌, length, take, drop, ◌>>=◌, ◌>>◌,
}
use spire_eks_workload_regis.Prelude.Exec.{Exec}
use spire_eks_workload_regis.Text.{Text}
use spire_eks_workload_regis.SpireApi.{Spiffe, Entry, Status, ApiStatus, status_from_api}
use spire_eks_workload_regis.SpireApi.Convert.{ApiEntry, entries_to_api}

-- One result of a create call; update and delete results are their statuses.
pub record CreateResult : Type 0 where
  pub status : Option ApiStatus
  pub entry : Option ApiEntry

-- entryv1.EntryClient: each call changes the state of the service, and may fail.
pub record EntryService : Type 1 where
  pub State : Type 0
  pub list_entries : Text → ℕ → Exec State (List ApiEntry × Text)
  pub batch_create_entry : List ApiEntry → Exec State (List CreateResult)
  pub batch_update_entry : List ApiEntry → Exec State (List (Option ApiStatus))
  pub batch_delete_entry : List Text → Exec State (List (Option ApiStatus))

abbrev pub entry_create_batch_size : ℕ
entry_create_batch_size = 50

abbrev pub entry_update_batch_size : ℕ
entry_update_batch_size = 50

abbrev pub entry_delete_batch_size : ℕ
entry_delete_batch_size = 200

-- What follows a call: the next round, or the way out.
abbrev pub unless_failed {ℓ} :
    {S : Type ℓ}
    → Result (Unit {0}) × S
    → (S → Option (Result (Unit {0}) × S))
    → Option (Result (Unit {0}) × S)
unless_failed (ok _, s) next = next s
unless_failed (err e, s) next = some (err e, s)
unless_failed (panic, s) next = some (panic, s)

module _ {S : Type 0} (size batch : ℕ) (fn : ℕ → ℕ → S → Result (Unit {0}) × S) where
  -- The loop of runBatch from index `i`.
  unfoldable pub run_batch_loop : ℕ → ℕ → S → Option (Result (Unit {0}) × S)
  run_batch_loop zero i s = none
  run_batch_loop (suc fuel) i s =
      let n = if ltb batch (size - i) then batch else size - i in
      let next = unless_failed (fn i (i + n) s) (λ s'. run_batch_loop fuel (i + n) s') in
      if ltb i size then next else some (ok tt, s)

-- runBatch
unfoldable pub run_batch :
    {S : Type 0} → ℕ → ℕ → (ℕ → ℕ → S → Result (Unit {0}) × S) → S → Option (Result (Unit {0}) × S)
run_batch size batch fn s =
    run_batch_loop size (if ltb batch 1 then size else batch) fn (suc size) 0 s

-- xs[i], which panics out of range
abbrev pub index {ℓ} : {X : Type ℓ} → List X → ℕ → Result (Unit {0})
index xs i = if ltb i (length xs) then ok tt else panic

module _ {X R State : Type 0} (call : List X → Exec State (List R))
    (status_of : List X → ℕ → R → Result Status) where
  -- The loop over `resp.Results`, which appends to `statuses`.
  unfoldable pub collect : List X → ℕ → List R → List Status → Result (List Status)
  collect batch i [] statuses = ok statuses
  collect batch i (r ∷ rs) statuses =
      status_of batch i r >>= λ status. collect batch (suc i) rs (statuses ++ status ∷ [])

  abbrev pub collected :
      Result (List Status) → List Status → State → Result (Unit {0}) × (List Status × State)
  collected (ok statuses) old s = (ok tt, (statuses, s))
  collected (err e) old s = (err e, (old, s))
  collected panic old s = (panic, (old, s))

  abbrev pub answered :
      List X → Result (List R) × State → List Status → Result (Unit {0}) × (List Status × State)
  answered batch (ok results, s) statuses = collected (collect batch 0 results statuses) statuses s
  answered batch (err e, s) statuses = (err e, (statuses, s))
  answered batch (panic, s) statuses = (panic, (statuses, s))

  -- The function that runBatch is given, over the captured `statuses`.
  unfoldable pub send_batch :
      List X → ℕ → ℕ → List Status × State → Result (Unit {0}) × (List Status × State)
  send_batch xs start end (statuses, s) =
      let batch = take (end - start) (drop start xs) in answered batch (call batch s) statuses

  -- The statuses and the error that a batch call returns, with the state of the service.
  unfoldable pub in_batches :
      ℕ → List X → State → Option (Result (Unit {0}) × (List Status × State))
  in_batches size xs s = run_batch (length xs) size (send_batch xs) ([], s)

-- The status of a result; the log line of a created entry, or of a failure, reads batchEntries[i].
unfoldable pub create_status : {sp : Spiffe} → List (Entry sp) → ℕ → CreateResult → Result Status
create_status batch i r =
    let status = status_from_api r.status in
    if status.code == 0
    then (elim r.entry [ none ↦ ok status | some e ↦ (index batch i >> ok status) ])
    else (index batch i >> ok status)

-- Both log lines of an update or a delete read batch[i].
unfoldable pub plain_status : {X : Type 0} → List X → ℕ → Option ApiStatus → Result Status
plain_status batch i r = index batch i >> ok (status_from_api r)

module _ (sp : Spiffe) (service : EntryService) where
  -- BatchCreateEntries
  unfoldable pub batch_create_entries :
      List (Entry sp) → service.State → Option (Result (Unit {0}) × (List Status × service.State))
  batch_create_entries =
      in_batches (λ b. service.batch_create_entry (entries_to_api sp b)) create_status
        entry_create_batch_size

  -- BatchUpdateEntries
  unfoldable pub batch_update_entries :
      List (Entry sp) → service.State → Option (Result (Unit {0}) × (List Status × service.State))
  batch_update_entries =
      in_batches (λ b. service.batch_update_entry (entries_to_api sp b)) plain_status
        entry_update_batch_size

-- BatchDeleteEntries
unfoldable pub batch_delete_entries :
    (service : EntryService)
    → List Text
    → service.State
    → Option (Result (Unit {0}) × (List Status × service.State))
batch_delete_entries service =
    in_batches service.batch_delete_entry plain_status entry_delete_batch_size
