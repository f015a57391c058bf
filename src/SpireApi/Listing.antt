-- ===== src/SpireApi/Listing.antt =====
-- pkg/spireapi/client.go: `ListEntries`, which follows page tokens. The loop takes fuel, the
-- number of pages that it may fetch: `none` means that the server had more.
use spire_eks_workload_regis.Prelude.{
  ℕ, zero, suc, ◌≤◌, ◌≡◌, Bool, List, [], ◌∷◌, ◌++◌, Option, none, some, Result, ok, err, panic,
  wrapf, if◌then◌else◌, length, arith, append_assoc, traverse, traverse-append, append-nil,
}
use spire_eks_workload_regis.Text.{Text, ◌==◌, eq_refl}
use spire_eks_workload_regis.SpireApi.{Spiffe, Entry}
use spire_eks_workload_regis.SpireApi.Convert.{ApiEntry, from_api_entry}
use spire_eks_workload_regis.SpireApi.Batch.{EntryService}

module _ (sp : Spiffe) (service : EntryService) where
  open service use {State}

  abbrev Listed : Type 0
  Listed = Option (Result (List (Entry sp)) × State)

  -- What follows the conversion of a page.
  turn_page :
      Result (List (Entry sp))
      → Text
      → State
      → (Text → List (Entry sp) → State → Listed)
      → List (Entry sp)
      → Listed
  turn_page (ok page) token s next entries =
      let rest = next token (entries ++ page) s in
      if token == [] then some (ok (entries ++ page), s) else rest
  turn_page (err e) token s next entries = some (err e, s)
  turn_page panic token s next entries = some (panic, s)

  got_page :
      Result (List ApiEntry × Text) × State
      → (Text → List (Entry sp) → State → Listed)
      → List (Entry sp)
      → Listed
  got_page (ok (page, token), s) next entries =
      turn_page (traverse (from_api_entry sp) page) token s next entries
  got_page (err e, s) next entries = some (err (wrapf "failed to list entries" e), s)
  got_page (panic, s) next entries = some (panic, s)

  list_entries_loop : ℕ → Text → List (Entry sp) → State → Listed
  unfolding got_page turn_page
  list_entries_loop zero token entries s = none
  list_entries_loop (suc fuel) token entries s =
      got_page (service.list_entries token 1000 s) (list_entries_loop fuel) entries

  -- ListEntries
  unfoldable pub list_entries : ℕ → State → Option (Result (List (Entry sp)) × State)
  unfolding list_entries_loop
  list_entries fuel s = list_entries_loop fuel [] [] s

  -- The server hands out these pages from a token on, the last one without a next token.
  pub data Pages : Text → State → List (List ApiEntry) → State → Type 0 where
    last_page :
        {token : Text} {s t : State} {page : List ApiEntry}
        → service.list_entries token 1000 s ≡ (ok (page, []), t)
        → Pages token s (page ∷ []) t
    more_pages :
        {token next : Text} {s t u : State} {page : List ApiEntry} {rest : List (List ApiEntry)}
        → service.list_entries token 1000 s ≡ (ok (page, next), t)
        → (next == []) ≡ Bool.false
        → Pages next t rest u
        → Pages token s (page ∷ rest) u

  -- The pages, one after the other.
  abbrev pub all_pages : List (List ApiEntry) → List ApiEntry
  all_pages [] = []
  all_pages (page ∷ rest) = page ++ all_pages rest

  list_entries_loop-all :
      (fuel : ℕ) {token : Text} {s u : State} {pages : List (List ApiEntry)}
      {entries : List (Entry sp)} (old : List (Entry sp))
      → Pages token s pages u
      → length pages ≤ fuel
      → traverse (from_api_entry sp) (all_pages pages) ≡ ok entries
      → list_entries_loop fuel token old s ≡ some (ok (old ++ entries), u)
  unfolding list_entries_loop
  list_entries_loop-all zero old (last_page e) h q = absurd (omega arith)
  list_entries_loop-all zero old (more_pages e ne p) h q = absurd (omega arith)
  list_entries_loop-all (suc fuel) old (last_page {page = page} e) h q =
      rw (e, rw append-nil at q, eq_refl [])
  list_entries_loop-all (suc fuel) old (more_pages {next = next} {page = page} {rest = rest} e ne p)
        h q =
      let (x, y, a, b, c) = traverse-append (from_api_entry sp) page (all_pages rest) q in
      rw (e, a, ne, list_entries_loop-all fuel (old ++ x) p (omega arith) b, c, append_assoc)

  -- If the server hands out some pages and every entry on them can be converted, then with fuel
  -- for as many pages the listing ends, and it is the entries of all pages in the order in which
  -- the server sent them.
  pub list_entries-all :
      {s u : State} {pages : List (List ApiEntry)} {entries : List (Entry sp)} (fuel : ℕ)
      → Pages [] s pages u
      → length pages ≤ fuel
      → traverse (from_api_entry sp) (all_pages pages) ≡ ok entries
      → list_entries fuel s ≡ some (ok entries, u)
  unfolding list_entries
  list_entries-all fuel p h q = list_entries_loop-all fuel [] p h q
