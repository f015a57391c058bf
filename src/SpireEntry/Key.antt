-- ===== src/SpireEntry/Key.antt =====
-- internal/spireentry/entries.go: the key of an entry. `digest` is SHA-256 in hexadecimal.
use mathlib.Core.List.{Perm}
use spire_eks_workload_regis.Prelude.{
  ◌≡◌, ◌⊎◌, Bool, true, false, not, List, [], ◌∷◌, ◌++◌, append_assoc, arith, if◌then◌else◌,
}
use spire_eks_workload_regis.Prelude.Sorting.{Order, insert_sorted, sort, sort-eq_of_perm}
use spire_eks_workload_regis.Text.{Text}
use spire_eks_workload_regis.Text.Order.{less, less_total, less_antisym, less_trans, Text-set}
use spire_eks_workload_regis.SpireApi.{Spiffe, Entry, Selector}

-- The order that `sort.Slice` is given.
unfoldable pub selector_less : Selector → Selector → Bool
selector_less a b =
    if less a.type b.type then true else if less b.type a.type then false else less a.value b.value

pub selector_total :
    (a b : Selector) → (not (selector_less b a) ≡ true) ⊎ (not (selector_less a b) ≡ true)
unfolding selector_less
selector_total a b = ground (arith, less_total a.type b.type, less_total a.value b.value)

pub selector_antisym :
    (a b : Selector) → not (selector_less b a) ≡ true → not (selector_less a b) ≡ true → a ≡ b
unfolding selector_less
selector_antisym a b h k = ground (arith, less_antisym a.type b.type, less_antisym a.value b.value)

pub selector_trans :
    (a b c : Selector)
    → not (selector_less b a) ≡ true
    → not (selector_less c b) ≡ true
    → not (selector_less c a) ≡ true
unfolding selector_less
selector_trans a b c h k = ground (
  arith,
  less_trans a.type b.type c.type,
  less_trans c.type a.type b.type,
  less_trans b.type c.type a.type,
  less_trans a.value b.value c.value,
  less_antisym a.type b.type,
  less_antisym b.type c.type,
)

pub selector_order : Order Selector
selector_order = record {
  le = λ a b. not (selector_less b a);
  total = selector_total;
  antisym = selector_antisym;
  trans = selector_trans;
}

Selector-set : IsSet Selector
Selector-set = hlevel Text-set

-- sortSelectors
unfoldable pub sort_selectors : List Selector → List Selector
unfolding selector_order
sort_selectors = sort selector_order

-- The types and values that are written to the hash.
unfoldable pub selectors_text : List Selector → Text
selectors_text [] = []
selectors_text (s ∷ l) = s.type ++ (s.value ++ selectors_text l)

module _ (sp : Spiffe) (digest : Text → Text) where
  -- makeEntryKey, EntryKey and MakeEntryKey
  unfoldable pub make_entry_key : Entry sp → Text
  make_entry_key entry = digest (
      sp.id_string entry.spiffe_id
      ++ (sp.id_string entry.parent_id ++ selectors_text (sort_selectors entry.selectors)))

  -- Two entries with the same IDs, whose selectors are rearrangements of one another, have one key,
  -- whatever their other fields are.
  pub make_entry_key-perm :
      (a b : Entry sp)
      → a.spiffe_id ≡ b.spiffe_id
      → a.parent_id ≡ b.parent_id
      → Perm a.selectors b.selectors
      → make_entry_key a ≡ make_entry_key b
  unfolding make_entry_key sort_selectors
  make_entry_key-perm a b h k p = rw (h, k, sort-eq_of_perm selector_order Selector-set p)

  -- The key does not see where a selector's type ends and its value begins: an entry with the one
  -- selector x++y:z has the key of the same entry with the one selector x:y++z, whatever the digest.
  pub make_entry_key-boundary :
      (e : Entry sp) (x y z : Text)
      → make_entry_key (record e { selectors = record { type = x ++ y; value = z } ∷ [] })
        ≡ make_entry_key (record e { selectors = record { type = x; value = y ++ z } ∷ [] })
  unfolding make_entry_key sort_selectors sort insert_sorted selectors_text
  make_entry_key-boundary e x y z = rw (append_assoc, append_assoc)
