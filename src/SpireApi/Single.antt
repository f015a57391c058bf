-- ===== src/SpireApi/Single.antt =====
-- pkg/spireapi/client.go: `CreateEntry`, `UpdateEntry` and `DeleteEntry`, batch calls of one item.
use spire_eks_workload_regis.Prelude.{
  ◌≡◌, ◌↔◌, ◌⊎◌, refl, List, [], ◌∷◌, Option, none, some, Result, ok, err, panic, messagef,
  if◌then◌else◌, deref, arith, String,
}
use spire_eks_workload_regis.Prelude.Int.{pos, int_eq, int_eq_iff}
use spire_eks_workload_regis.Prelude.Exec.{Exec, lift, wrapping, ◌>>=◌}
use spire_eks_workload_regis.Text.{Text}
use spire_eks_workload_regis.SpireApi.{Spiffe, Entry, ApiStatus}
use spire_eks_workload_regis.SpireApi.Convert.{ApiEntry, to_api_entry}
use spire_eks_workload_regis.SpireApi.Batch.{EntryService, CreateResult}

-- resp.Results[0].Status, if there is a result; a nil status is dereferenced.
abbrev pub first_status : List (Option ApiStatus) → Option (Result ApiStatus)
first_status [] = none
first_status (s ∷ _) = some (deref s)

abbrev pub statuses_of : List CreateResult → List (Option ApiStatus)
statuses_of [] = []
statuses_of (r ∷ rs) = r.status ∷ statuses_of rs

-- What CreateEntry makes of the first status: code 6, AlreadyExists, is a success.
unfoldable pub create_verdict : Option (Result ApiStatus) → Result (Unit {0})
create_verdict none = ok tt
create_verdict (some (ok s)) =
    if int_eq s.code (pos 0)
    then ok tt
    else if int_eq s.code (pos 6)
    then ok tt
    else err (messagef "failed to create entry: %s" s.message)
create_verdict (some (err e)) = err e
create_verdict (some panic) = panic

-- What UpdateEntry and DeleteEntry make of it.
unfoldable pub plain_verdict : String → Option (Result ApiStatus) → Result (Unit {0})
plain_verdict msg none = ok tt
plain_verdict msg (some (ok s)) =
    if int_eq s.code (pos 0) then ok tt else err (messagef msg s.message)
plain_verdict msg (some (err e)) = err e
plain_verdict msg (some panic) = panic

module _ (sp : Spiffe) (service : EntryService) where
  open service use {State}

  -- CreateEntry
  unfoldable pub create_entry : Entry sp → Exec State (Unit {0})
  create_entry entry = do
    results ←
        wrapping "failed to create entry" (service.batch_create_entry (to_api_entry sp entry ∷ []))
    lift (create_verdict (first_status (statuses_of results)))

  -- UpdateEntry
  unfoldable pub update_entry : Entry sp → Exec State (Unit {0})
  update_entry entry = do
    results ←
        wrapping "failed to update entry" (service.batch_update_entry (to_api_entry sp entry ∷ []))
    lift (plain_verdict "failed to update entry: %s" (first_status results))

module _ (service : EntryService) where
  open service use {State}

  -- DeleteEntry
  unfoldable pub delete_entry : Text → Exec State (Unit {0})
  delete_entry id = do
    results ← wrapping "failed to delete entry" (service.batch_delete_entry (id ∷ []))
    lift (plain_verdict "failed to delete entry: %s" (first_status results))

-- Where the service answers the create of one entry with one status, CreateEntry leaves the
-- service as that single request did, and it succeeds exactly when the status is OK (0) or
-- AlreadyExists (6).
pub create_entry-succeeds :
    (sp : Spiffe) (service : EntryService) (e : Entry sp) (s t : service.State) (st : ApiStatus)
    (made : Option ApiEntry)
    → service.batch_create_entry (to_api_entry sp e ∷ []) s
      ≡ (ok (record { status = some st; entry = made } ∷ []), t)
    → (((create_entry sp service e s).0 ≡ ok tt) ↔ ((st.code ≡ pos 0) ⊎ (st.code ≡ pos 6)))
      × ((create_entry sp service e s).1 ≡ t)
unfolding create_entry create_verdict
create_entry-succeeds sp service e s t st made h = rw (h, create_entry) (created_iff st, refl)
  where
    created_iff :
        (st : ApiStatus)
        → (create_verdict (some (ok st)) ≡ ok tt) ↔ ((st.code ≡ pos 0) ⊎ (st.code ≡ pos 6))
    created_iff st = ground (arith, int_eq_iff st.code (pos 0), int_eq_iff st.code (pos 6))
