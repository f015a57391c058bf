-- ===== src/SpireApi/Convert.antt =====
-- pkg/spireapi/client.go: entries to and from the messages of the SPIRE API.
use spire_eks_workload_regis.Prelude.{
  ◌≡◌, refl, ap, Bool, List, [], ◌∷◌, map, ◌++◌, Option, some, Result, ok, deref, traverse,
  traverse-map, ◌>>=◌,
}
use spire_eks_workload_regis.Prelude.Int.{ℤ}
use spire_eks_workload_regis.Text.{Text, bytes}
use spire_eks_workload_regis.SpireApi.{Spiffe, SpiffeLaws, Selector, Entry}

-- types.SPIFFEID
pub record ApiId : Type 0 where
  pub trust_domain : Text
  pub path : Text

-- types.Entry, the fields that the client reads and writes; the IDs are pointers
pub record ApiEntry : Type 0 where
  pub id : Text
  pub spiffe_id : Option ApiId
  pub parent_id : Option ApiId
  pub selectors : List Selector
  pub x509_svid_ttl : ℤ
  pub jwt_svid_ttl : ℤ
  pub federates_with : List Text
  pub admin : Bool
  pub downstream : Bool
  pub dns_names : List Text
  pub hint : Text

module _ (sp : Spiffe) where
  pub api_id : sp.SpiffeId → ApiId
  api_id i = record { trust_domain = sp.td_string (sp.id_trust_domain i); path = sp.id_path i }

  -- toAPIEntry
  unfoldable pub to_api_entry : Entry sp → ApiEntry
  unfolding api_id
  to_api_entry e = record {
    id = e.id;
    spiffe_id = some (api_id e.spiffe_id);
    parent_id = some (api_id e.parent_id);
    selectors = map (λ s. record { type = s.type; value = s.value }) e.selectors;
    x509_svid_ttl = e.x509_svid_ttl;
    jwt_svid_ttl = e.jwt_svid_ttl;
    federates_with = map sp.td_string e.federates_with;
    admin = e.admin;
    downstream = e.downstream;
    dns_names = e.dns_names;
    hint = e.hint;
  }

  -- spiffeid.FromString(fmt.Sprintf("spiffe://%s%s", p.TrustDomain, p.Path)); a nil pointer panics
  pub id_from_api : Option ApiId → Result sp.SpiffeId
  id_from_api p = do a ← deref p; sp.from_string (bytes "spiffe://" ++ (a.trust_domain ++ a.path))

  -- fromAPIEntry
  unfoldable pub from_api_entry : ApiEntry → Result (Entry sp)
  unfolding id_from_api
  from_api_entry e = do
    spiffe_id ← id_from_api e.spiffe_id
    parent_id ← id_from_api e.parent_id
    federates_with ← traverse sp.td_from_string e.federates_with
    ok (record {
      id = e.id;
      spiffe_id = spiffe_id;
      parent_id = parent_id;
      selectors = map (λ s. record { type = s.type; value = s.value }) e.selectors;
      x509_svid_ttl = e.x509_svid_ttl;
      jwt_svid_ttl = e.jwt_svid_ttl;
      federates_with = federates_with;
      admin = e.admin;
      downstream = e.downstream;
      dns_names = e.dns_names;
      hint = e.hint;
    })

  -- entriesToAPI
  unfoldable pub entries_to_api : List (Entry sp) → List ApiEntry
  entries_to_api = map to_api_entry

map_selectors :
    (l : List Selector) → map (λ (s : Selector). record { type = s.type; value = s.value }) l ≡ l
map_selectors [] = refl
map_selectors (s ∷ l) = ap (◌∷◌ s) (map_selectors l)

module _ (sp : Spiffe) (laws : SpiffeLaws sp) where
  id_from_api-api_id :
      (t : Text) (i : sp.SpiffeId)
      → sp.from_string t ≡ ok i
      → id_from_api sp (some (api_id sp i)) ≡ ok i
  unfolding id_from_api api_id
  id_from_api-api_id t i h = laws.from_string-parts t i h

  -- An entry whose IDs both came from `FromString` is returned unchanged when it is converted to
  -- the API's message and back.
  pub from_api_entry-to_api_entry :
      (e : Entry sp) (t u : Text)
      → sp.from_string t ≡ ok e.spiffe_id
      → sp.from_string u ≡ ok e.parent_id
      → from_api_entry sp (to_api_entry sp e) ≡ ok e
  unfolding from_api_entry to_api_entry
  from_api_entry-to_api_entry e t u h k = rw (
    id_from_api-api_id t e.spiffe_id h,
    id_from_api-api_id u e.parent_id k,
    traverse-map sp.td_from_string sp.td_string e.federates_with laws.td_from_string-td_string,
    map_selectors e.selectors,
    map_selectors e.selectors,
  )
