-- ===== src/SpireApi.antt =====
-- pkg/spireapi/client.go: registration entries, the statuses of the SPIRE API, and the `Client`
-- interface that the controllers use. go-spiffe's IDs and trust domains are a parameter.
pub mod Convert
pub mod Batch
pub mod Listing
pub mod Single
use spire_eks_workload_regis.Prelude.{
  ℕ, ◌≡◌, ◌↔◌, String, Bool, true, List, ◌++◌, Option, some, none, Error, Result, ok,
}
use spire_eks_workload_regis.Prelude.Int.{ℤ, pos, to_uint32}
use spire_eks_workload_regis.Prelude.Exec.{Exec}
use spire_eks_workload_regis.Text.{Text, bytes}

-- github.com/spiffe/go-spiffe/v2/spiffeid, as far as the program calls it.
pub record Spiffe : Type 1 where
  pub SpiffeId : Type 0
  pub TrustDomain : Type 0
  pub id_eq : SpiffeId → SpiffeId → Bool
  pub id_string : SpiffeId → Text
  pub id_trust_domain : SpiffeId → TrustDomain
  pub id_path : SpiffeId → Text
  pub from_string : Text → Result SpiffeId
  pub td_string : TrustDomain → Text
  pub td_from_string : Text → Result TrustDomain

-- What the library documents: `==` on IDs is equality, an ID that `FromString` returned is
-- spelled by its trust domain and its path, and a trust domain by its name.
pub record SpiffeLaws (sp : Spiffe) : Type 0 where
  pub id_eq_iff : (a b : sp.SpiffeId) → (sp.id_eq a b ≡ true) ↔ (a ≡ b)
  pub from_string-parts :
      (t : Text) (i : sp.SpiffeId)
      → sp.from_string t ≡ ok i
      → sp.from_string (bytes "spiffe://" ++ (sp.td_string (sp.id_trust_domain i) ++ sp.id_path i))
        ≡ ok i
  pub td_from_string-td_string : (d : sp.TrustDomain) → sp.td_from_string (sp.td_string d) ≡ ok d

-- type Selector
pub record Selector : Type 0 where
  pub type : Text
  pub value : Text

-- type Entry
pub record Entry (sp : Spiffe) : Type 0 where
  pub id : Text
  pub spiffe_id : sp.SpiffeId
  pub parent_id : sp.SpiffeId
  pub selectors : List Selector
  pub x509_svid_ttl : ℤ
  pub jwt_svid_ttl : ℤ
  pub federates_with : List sp.TrustDomain
  pub admin : Bool
  pub downstream : Bool
  pub dns_names : List Text
  pub hint : Text

-- type Status: a gRPC code and its message
pub record Status : Type 0 where
  pub code : ℕ
  pub message : Text

-- The API's status message, with its int32 code.
pub record ApiStatus : Type 0 where
  pub code : ℤ
  pub message : Text

-- statusFromAPI
unfoldable pub status_from_api : Option ApiStatus → Status
status_from_api none = record { code = 2; message = bytes "status is nil" }
status_from_api (some s) = record { code = to_uint32 s.code; message = s.message }

-- type Client interface, without Close and the two batch calls that no controller makes
pub record Client (sp : Spiffe) : Type 1 where
  pub State : Type 0
  pub list_entries : Exec State (List (Entry sp))
  pub create_entry : Entry sp → Exec State (Unit {0})
  pub update_entry : Entry sp → Exec State (Unit {0})
  pub delete_entry : Text → Exec State (Unit {0})
  pub batch_delete_entries : List Text → Exec State (List Status)
