-- ===== src/Tests/Settings.antt =====
-- The configuration, selectors and the order of objects at sample inputs.
use spire_eks_workload_regis.Prelude.{
  ◌≡◌, ◌≢◌, ◌↔◌, refl, ◌++◌, Bool, false, [], ◌∷◌, none, Result, ok,
}
use spire_eks_workload_regis.Prelude.Int.{pos}
use spire_eks_workload_regis.Text.{Text, bytes, ◌==◌}
use spire_eks_workload_regis.Text.Split.{Lacks}
use spire_eks_workload_regis.SpireApi.{Selector}
use spire_eks_workload_regis.SpireEntry.Helpers.{parse_selector, parse_selector_iff}
use spire_eks_workload_regis.Config
use spire_eks_workload_regis.Config.{
  ControllerManagerConfig, Options, Files, with_defaults, load_config,
}
use spire_eks_workload_regis.Config.Loaded.{IsComplete, load_config-IsComplete}

-- A file with a trust domain alone.
abbrev config : ControllerManagerConfig
config = record {
  spec = record {
    sync_period = none;
    leader_election = none;
    cache_namespace = [];
    metrics_bind_address = [];
    health = record {
      health_probe_bind_address = [];
      readiness_endpoint_name = [];
      liveness_endpoint_name = [];
    };
  };
  cluster_name = [];
  trust_domain = bytes "a.org";
  ignore_namespaces = bytes "kube-system" ∷ [];
  spire_server_socket_path = [];
  entry_id_prefix = [];
  gc_interval = pos 0;
}

abbrev options : Options
options = record {
  sync_period = none;
  default_namespaces = [];
  metrics_bind_address = [];
  health_probe_bind_address = [];
  readiness_endpoint_name = [];
  liveness_endpoint_name = [];
  leader_election = false;
  leader_election_resource_lock = [];
  leader_election_namespace = [];
  leader_election_id = bytes "registrar";
  lease_duration = none;
  renew_deadline = none;
  retry_period = none;
}

abbrev files : Files
files = record { read_file = ok; expand_env = λ t. t; decode = λ t. ok config }

abbrev compile : Text → Result (Text → Bool)
compile pattern = ok (λ t. pattern == t)

loads :
    load_config files ok compile (bytes "file") options false
    ≡ ok (with_defaults config, (options, (λ t. bytes "kube-system" == t) ∷ []))
unfolding Config.load_config Config.load_options_from_file Config.load_file
    Config.add_options_from_config_spec Config.set_leader_election_config Config.set_text
    Config.parse_ignore_namespaces ◌==◌
loads = refl

load_config-IsComplete_example : IsComplete (with_defaults config)
load_config-IsComplete_example =
    load_config-IsComplete files ok compile (bytes "file") options false (with_defaults config)
      (options, (λ t. bytes "kube-system" == t) ∷ []) loads

abbrev selector : Selector
selector = record { type = bytes "k8s"; value = bytes "ns:shop" }

parse_selector_iff_example : (parse_selector (bytes "k8s:ns:shop") ≡ ok selector) ↔ (
    (bytes "k8s:ns:shop" ≡ bytes "k8s" ++ b':' ∷ bytes "ns:shop")
    × Lacks b':' (bytes "k8s")
    × (bytes "k8s" ≢ [])
    × (bytes "ns:shop" ≢ []))
parse_selector_iff_example = parse_selector_iff (bytes "k8s:ns:shop") selector
