-- ===== src/Config.antt =====
-- The configuration: api/v1alpha1/controllermanagerconfig_types.go and controllermanagerconfig_loader.go,
-- and the start of cmd/main.go. Reading and decoding the file, and regular expressions, are parameters; a
-- duration is a number of nanoseconds.
pub mod Loaded
use spire_eks_workload_regis.Prelude.{
  ℕ, ◌*◌, Bool, true, false, not, ◌&&◌, List, [], ◌∷◌, Option, none, some, Result, ok, err, wrap,
  errorf, if◌then◌else◌, ◌>>=◌,
}
use spire_eks_workload_regis.Prelude.Int.{ℤ, pos, int_eq}
use spire_eks_workload_regis.Text.{Text, bytes, ◌==◌}

-- configv1alpha1.LeaderElectionConfiguration
pub record LeaderElectionConfiguration : Type 0 where
  pub leader_elect : Option Bool
  pub lease_duration : ℤ
  pub renew_deadline : ℤ
  pub retry_period : ℤ
  pub resource_lock : Text
  pub resource_name : Text
  pub resource_namespace : Text

-- ControllerHealth
pub record ControllerHealth : Type 0 where
  pub health_probe_bind_address : Text
  pub readiness_endpoint_name : Text
  pub liveness_endpoint_name : Text

-- ControllerManagerConfigurationSpec, less its webhook, which nothing reads; the metrics are their address
pub record ControllerManagerConfigurationSpec : Type 0 where
  pub sync_period : Option ℤ
  pub leader_election : Option LeaderElectionConfiguration
  pub cache_namespace : Text
  pub metrics_bind_address : Text
  pub health : ControllerHealth

-- ControllerManagerConfig, less its AWS part, which nothing reads
pub record ControllerManagerConfig : Type 0 where
  pub spec : ControllerManagerConfigurationSpec
  pub cluster_name : Text
  pub trust_domain : Text
  pub ignore_namespaces : List Text
  pub spire_server_socket_path : Text
  pub entry_id_prefix : Text
  pub gc_interval : ℤ

-- ctrl.Options, as far as the loader sets it
pub record Options : Type 0 where
  pub sync_period : Option ℤ
  pub default_namespaces : List Text
  pub metrics_bind_address : Text
  pub health_probe_bind_address : Text
  pub readiness_endpoint_name : Text
  pub liveness_endpoint_name : Text
  pub leader_election : Bool
  pub leader_election_resource_lock : Text
  pub leader_election_namespace : Text
  pub leader_election_id : Text
  pub lease_duration : Option ℤ
  pub renew_deadline : Option ℤ
  pub retry_period : Option ℤ

-- if o.X == "" && spec.X != "" { o.X = spec.X }
unfoldable pub set_text : Text → Text → Text
set_text o x = if o == [] && not (x == []) then x else o

-- if o.D == nil && d != 0 { o.D = &d }
abbrev pub set_duration : Option ℤ → ℤ → Option ℤ
set_duration none d = if not (int_eq d (pos 0)) then some d else none
set_duration (some o) d = some o

-- if o.D == nil && d != nil { o.D = d }
abbrev pub or_else : Option ℤ → Option ℤ → Option ℤ
or_else none d = d
or_else (some o) d = some o

abbrev pub elect : Bool → Option Bool → Bool
elect true e = true
elect false none = false
elect false (some e) = e

-- setLeaderElectionConfig
abbrev pub elect_by : Option LeaderElectionConfiguration → Options → Options
elect_by none o = o
elect_by (some c) o = record o {
  leader_election = elect o.leader_election c.leader_elect;
  leader_election_resource_lock = set_text o.leader_election_resource_lock c.resource_lock;
  leader_election_namespace = set_text o.leader_election_namespace c.resource_namespace;
  leader_election_id = set_text o.leader_election_id c.resource_name;
  lease_duration = set_duration o.lease_duration c.lease_duration;
  renew_deadline = set_duration o.renew_deadline c.renew_deadline;
  retry_period = set_duration o.retry_period c.retry_period;
}

unfoldable pub set_leader_election_config : Options → ControllerManagerConfigurationSpec → Options
set_leader_election_config o spec = elect_by spec.leader_election o

-- addOptionsFromConfigSpec
unfoldable pub add_options_from_config_spec :
    Options → ControllerManagerConfigurationSpec → Result Options
add_options_from_config_spec options spec =
    let o = set_leader_election_config options spec in
    ok (record o {
      sync_period = or_else o.sync_period spec.sync_period;
      default_namespaces =
          if not (spec.cache_namespace == [])
          then spec.cache_namespace ∷ []
          else o.default_namespaces;
      metrics_bind_address = set_text o.metrics_bind_address spec.metrics_bind_address;
      health_probe_bind_address =
          set_text o.health_probe_bind_address spec.health.health_probe_bind_address;
      readiness_endpoint_name =
          set_text o.readiness_endpoint_name spec.health.readiness_endpoint_name;
      liveness_endpoint_name = set_text o.liveness_endpoint_name spec.health.liveness_endpoint_name;
    })

-- os.ReadFile, os.ExpandEnv, and the decoder
pub record Files : Type 0 where
  pub read_file : Text → Result Text
  pub expand_env : Text → Text
  pub decode : Text → Result ControllerManagerConfig

module _ (files : Files) where
  -- loadFile
  unfoldable pub load_file : Text → Bool → Result ControllerManagerConfig
  load_file path expand_env = wrap "could not read file" (files.read_file path) >>= λ content.
      wrap "could not decode file into runtime.Object"
        (files.decode (if expand_env then files.expand_env content else content))

  -- LoadOptionsFromFile
  unfoldable pub load_options_from_file :
      Text → Options → Bool → Result (ControllerManagerConfig × Options)
  load_options_from_file path options expand_env = load_file path expand_env >>= λ config.
      add_options_from_config_spec options config.spec >>= λ o. ok (config, o)

-- The defaults of main.
unfoldable pub with_defaults : ControllerManagerConfig → ControllerManagerConfig
with_defaults c = record c {
  spire_server_socket_path =
      if c.spire_server_socket_path == []
      then bytes "/run/spire/sockets/server.sock"
      else c.spire_server_socket_path;
  gc_interval = if int_eq c.gc_interval (pos 0) then pos (10 * 60 * 1000000000) else c.gc_interval;
  cluster_name = if c.cluster_name == [] then bytes "default" else c.cluster_name;
  entry_id_prefix = if c.entry_id_prefix == [] then bytes "eks-workload-" else c.entry_id_prefix;
}

-- parseIgnoreNamespaces, of what regexp.Compile gives
unfoldable pub parse_ignore_namespaces :
    (Text → Result (Text → Bool)) → List Text → Result (List (Text → Bool))
parse_ignore_namespaces compile [] = ok []
parse_ignore_namespaces compile (ns ∷ namespaces) =
    wrap "invalid namespace pattern" (compile ns) >>= λ regex.
    parse_ignore_namespaces compile namespaces >>= λ regexes. ok (regex ∷ regexes)

-- main, from the required trust domain to the patterns. An error stands for os.Exit(1).
abbrev pub accept :
    (Text → Result Text)
    → (Text → Result (Text → Bool))
    → ControllerManagerConfig × Options
    → Result (ControllerManagerConfig × (Options × List (Text → Bool)))
accept trust_domain_from_string compile (config, options) =
    if config.trust_domain == []
    then err (errorf "trustDomain is required in config file")
    else trust_domain_from_string config.trust_domain >>= λ trust_domain.
        parse_ignore_namespaces compile config.ignore_namespaces >>= λ regexes.
        ok (with_defaults config, (options, regexes))

-- main, up to the clients: what it goes on with
unfoldable pub load_config :
    Files
    → (Text → Result Text)
    → (Text → Result (Text → Bool))
    → Text
    → Options
    → Bool
    → Result (ControllerManagerConfig × (Options × List (Text → Bool)))
load_config files trust_domain_from_string compile path options expand_env =
    if path == []
    then err (errorf "config file is required (use --config flag)")
    else load_options_from_file files path options expand_env
      >>= accept trust_domain_from_string compile
