-- ===== src/Tests/Samples.antt =====
-- Concrete functions for the parameters of the model, and sample objects.
use spire_eks_workload_regis.Prelude.{
  ◌≡◌, refl, ap, Bool, true, false, List, [], ◌∷◌, ◌++◌, Option, none, some, Result, ok, err,
  errorf, if◌then◌else◌, ◌==◌ as nat_eq, Bool-cases, inl, inr, drop,
}
use spire_eks_workload_regis.Prelude.Int.{ℤ, pos}
use spire_eks_workload_regis.Prelude.Maps.{Map, lookup, insert, delete}
use spire_eks_workload_regis.Text.{Text, bytes, ◌==◌, eq_iff, has_prefix}
use spire_eks_workload_regis.Api.{
  Kube, WorkloadIdentity, EksClusterRegistry, ObjectMeta, Pod, Node, text_keys,
}
use spire_eks_workload_regis.SpireApi.{Spiffe, SpiffeLaws, Entry, Client, ApiStatus}
use spire_eks_workload_regis.SpireApi.Convert.{ApiEntry}
use spire_eks_workload_regis.SpireApi.Batch.{EntryService, CreateResult}
use spire_eks_workload_regis.SpireApi.Batch.Itemwise.{each}
use spire_eks_workload_regis.SpireEntry.Render.{Templates}
use spire_eks_workload_regis.Controller.Reliable.{Reliable, delete_ids, entries_of}

-- An ID is what follows "spiffe://": a trust domain up to the first '/', and a path.
unfoldable pub before_slash : Text → Text
before_slash [] = []
before_slash (c ∷ t) = let rest = before_slash t in if nat_eq c b'/' then [] else c ∷ rest

unfoldable pub from_slash : Text → Text
from_slash [] = []
from_slash (c ∷ t) = let rest = from_slash t in if nat_eq c b'/' then c ∷ t else rest

before_slash-from_slash : (t : Text) → before_slash t ++ from_slash t ≡ t
unfolding before_slash from_slash
before_slash-from_slash [] = refl
before_slash-from_slash (c ∷ t) = elim (Bool-cases (nat_eq c b'/')) [
  | inl h ↦ rw h refl
  | inr h ↦ rw h (ap (◌∷◌ c) (before_slash-from_slash t))
]

abbrev pub parse_id : Text → Result Text
parse_id t =
    if has_prefix t (bytes "spiffe://")
    then ok (drop 9 t)
    else err (errorf "scheme is missing or invalid")

abbrev pub spiffe : Spiffe
spiffe = record {
  SpiffeId = Text;
  TrustDomain = Text;
  id_eq = ◌==◌;
  id_string = λ i. bytes "spiffe://" ++ i;
  id_trust_domain = before_slash;
  id_path = from_slash;
  from_string = parse_id;
  td_string = λ d. d;
  td_from_string = ok;
}

pub spiffe_laws : SpiffeLaws spiffe
unfolding has_prefix drop
spiffe_laws = record {
  id_eq_iff = eq_iff;
  from_string-parts = λ t i h. ap ok (before_slash-from_slash i);
  td_from_string-td_string = λ d. refl;
}

abbrev pub has_label : Option Text → Text → Bool
has_label none v = false
has_label (some w) v = w == v

-- A selector is one label that an object must have.
abbrev pub label_selector : Option (Text × Text) → Result (Map Text Text → Bool)
label_selector none = ok (λ labels. false)
label_selector (some (key, v)) = ok (λ labels. has_label (lookup text_keys key labels) v)

abbrev pub kube : Kube
kube = record {
  LabelSelector = Text × Text;
  Duration = ℤ;
  label_selector_as_selector = label_selector;
  seconds = λ d. d;
}

-- A template is a text that the pod's name follows.
abbrev pub templates : Templates
templates = record { Template = Text; parse = ok; execute = λ t d. ok (t ++ d.pod_meta.name) }

abbrev pub digest : Text → Text
digest t = t

abbrev pub status_ok : ApiStatus
status_ok = record { code = pos 0; message = [] }

-- A service that keeps messages by their IDs.
abbrev pub delete_one : Text → Map Text ApiEntry → Option ApiStatus × Map Text ApiEntry
delete_one id m = (some status_ok, delete text_keys id m)

abbrev pub update_one : ApiEntry → Map Text ApiEntry → Option ApiStatus × Map Text ApiEntry
update_one e m = (some status_ok, insert text_keys e.id e m)

abbrev pub create_one : ApiEntry → Map Text ApiEntry → CreateResult × Map Text ApiEntry
create_one e m = (record { status = some status_ok; entry = some e }, insert text_keys e.id e m)

abbrev pub messages_of : Map Text ApiEntry → List ApiEntry
messages_of [] = []
messages_of ((id, e) ∷ m) = e ∷ messages_of m

abbrev pub service : EntryService
service = record {
  State = Map Text ApiEntry;
  list_entries = λ token n s. (ok (messages_of s, []), s);
  batch_create_entry = λ b s. (ok (each create_one b s).0, (each create_one b s).1);
  batch_update_entry = λ b s. (ok (each update_one b s).0, (each update_one b s).1);
  batch_delete_entry = λ b s. (ok (each delete_one b s).0, (each delete_one b s).1);
}

-- A client over a map of entries.
abbrev pub client : Client spiffe
client = record {
  State = Map Text (Entry spiffe);
  list_entries = λ s. (ok (entries_of s), s);
  create_entry = λ e s. (ok tt, insert text_keys e.id e s);
  update_entry = λ e s. (ok tt, insert text_keys e.id e s);
  delete_entry = λ id s. (ok tt, delete text_keys id s);
  batch_delete_entries = λ l s. (ok [], delete_ids l s);
}

abbrev pub client_reliable : Reliable spiffe client
client_reliable = record {
  store = λ s. s;
  lists = λ s. refl;
  creates = λ e s. (insert text_keys e.id e s, refl, refl);
  updates = λ e s. (insert text_keys e.id e s, refl, refl);
  deletes = λ id s. (delete text_keys id s, refl, refl);
  batch_deletes = λ l s. ([], delete_ids l s, refl, refl);
}

abbrev pub meta_of : Text → Text → ObjectMeta
meta_of name uid = record {
  name = name;
  namespace = bytes "shop";
  uid = uid;
  labels = [];
  creation_timestamp = 0;
  deletion_timestamp = none;
  finalizers = [];
}

abbrev pub identity_with : Text → Text → WorkloadIdentity kube
identity_with name hint = record {
  meta = meta_of name (bytes "1");
  spec = record {
    application_name = name;
    namespace = bytes "shop";
    spiffe_id_template = bytes "spiffe://a.org/";
    parent_id_template = [];
    pod_selector = none;
    ttl = pos 3600;
    jwt_ttl = pos 300;
    dns_name_templates = bytes "dns" ∷ [];
    workload_selector_templates = bytes "k8s:ns:" ∷ [];
    federates_with = bytes "b.org" ∷ [];
    admin = false;
    downstream = false;
    auto_populate_dns_names = false;
    cluster_selector = none;
    hint = hint;
  };
  stats = record {
    clusters_targeted = 0;
    namespaces_found = 0;
    pods_selected = 0;
    entries_registered = 0;
    entry_failures = 0;
  };
  last_reconciliation = none;
}

abbrev pub cluster : EksClusterRegistry
cluster = record {
  meta = meta_of (bytes "eu") (bytes "2");
  spec = record {
    cluster_name = bytes "eu";
    region = bytes "eu-1";
    account_id = bytes "42";
    enabled = true;
    assume_role_arn = [];
    labels = [];
  };
  status = record {
    last_sync = none;
    conditions = [];
    namespace_count = 0;
    entries_registered = 0;
  };
}

abbrev pub pod : Pod
pod = record {
  meta = meta_of (bytes "web") (bytes "p1");
  spec = record { node_name = bytes "n1"; service_account_name = bytes "web" };
  phase = bytes "Running";
}

abbrev pub node : Node
node = record {
  meta = meta_of (bytes "n1") (bytes "n1");
  spec = record { provider_id = bytes "aws:///eu-1a/i-1" };
}

-- What is rendered of them.
abbrev pub entry_with : Text → Entry spiffe
entry_with hint = record {
  id = [];
  spiffe_id = bytes "a.org/web";
  parent_id =
      bytes "{{ .TrustDomain }}/spire/agent/k8s_psat/{{ .ClusterName }}/{{ .NodeMeta.UID }}web";
  selectors =
      record { type = bytes "k8s"; value = bytes "pod-uid:p1" }
      ∷ record { type = bytes "k8s"; value = bytes "ns:web" }
      ∷ [];
  x509_svid_ttl = pos 3600;
  jwt_svid_ttl = pos 300;
  federates_with = bytes "b.org" ∷ [];
  admin = false;
  downstream = false;
  dns_names = bytes "dnsweb" ∷ [];
  hint = hint;
}
