-- ===== src/Config/Loaded.antt =====
-- Which settings the configuration file can change, and what the program starts with.
use spire_eks_workload_regis.Prelude.{
  ◌≡◌, ◌≢◌, refl, ap, sym, ◌∙◌, Bool, List, [], Option, none, some, Result, ok, err, panic,
  first_ok, ◌>>=◌, subst, Bool-cases, inl, inr, arith, if◌then◌else◌,
}
use spire_eks_workload_regis.Prelude.Int.{pos, int_eq, int_eq_iff}
use spire_eks_workload_regis.Text.{Text, bytes, ◌==◌, eq_iff}
use spire_eks_workload_regis.Config.{
  Options, ControllerManagerConfigurationSpec, ControllerManagerConfig, LeaderElectionConfiguration,
  Files, set_text, elect_by, set_leader_election_config, add_options_from_config_spec,
  load_options_from_file, with_defaults, accept, parse_ignore_namespaces, load_config,
}

kept_text : (o x : Text) → o ≢ [] → set_text o x ≡ o
unfolding set_text
kept_text o x n = elim (Bool-cases (o == [])) [
  | inl q ↦ absurd (n ((eq_iff o []).0 q))
  | inr q ↦ rw q refl
]

abbrev id_or_none : Result Options → Text
id_or_none (ok o) = o.leader_election_id
id_or_none (err e) = []
id_or_none panic = []

-- An election ID that the options have, such as main's, is kept, whatever resourceName the configuration
-- has.
pub add_options_from_config_spec-leader_election_id :
    (o o' : Options) (spec : ControllerManagerConfigurationSpec)
    → o.leader_election_id ≢ []
    → add_options_from_config_spec o spec ≡ ok o'
    → o'.leader_election_id ≡ o.leader_election_id
unfolding add_options_from_config_spec set_leader_election_config
add_options_from_config_spec-leader_election_id o o' spec n h =
    ap id_or_none (sym h) ∙ on_election spec.leader_election
  where
    on_election :
        (e : Option LeaderElectionConfiguration)
        → (elect_by e o).leader_election_id ≡ o.leader_election_id
    on_election none = refl
    on_election (some c) = kept_text o.leader_election_id c.resource_name n

-- What main goes on with.
pub record IsComplete (c : ControllerManagerConfig) : Type 0 where
  pub trusted : c.trust_domain ≢ []
  pub socket : c.spire_server_socket_path ≢ []
  pub named : c.cluster_name ≢ []
  pub prefixed : c.entry_id_prefix ≢ []
  pub interval : c.gc_interval ≢ pos 0

default_text : (x d : Text) → d ≢ [] → (if x == [] then d else x) ≢ []
default_text x d n h = elim (Bool-cases (x == [])) [
  | inl q ↦ n (rw q at h)
  | inr q ↦ let e : x ≡ [] = rw q at h in cc (q, (eq_iff x []).1 e)
]

with_defaults-IsComplete :
    (c : ControllerManagerConfig) → c.trust_domain ≢ [] → IsComplete (with_defaults c)
unfolding with_defaults
with_defaults-IsComplete c n = record {
  trusted = n;
  socket =
      default_text c.spire_server_socket_path (bytes "/run/spire/sockets/server.sock") (λ e. cc e);
  named = default_text c.cluster_name (bytes "default") (λ e. cc e);
  prefixed = default_text c.entry_id_prefix (bytes "eks-workload-") (λ e. cc e);
  interval = λ e. elim (Bool-cases (int_eq c.gc_interval (pos 0))) [
    | inl q ↦ ground (arith, rw q at e)
    | inr q ↦ ground (arith, rw q at e, int_eq_iff c.gc_interval (pos 0))
  ];
}

-- Where the configuration is accepted, the program goes on with a trust domain, and with a socket path, a
-- cluster name, an entry ID prefix and a GC interval that are not empty.
pub load_config-IsComplete :
    (files : Files) (trust_domain_from_string : Text → Result Text)
    (compile : Text → Result (Text → Bool)) (path : Text) (options : Options) (expand_env : Bool)
    (c : ControllerManagerConfig) (rest : Options × List (Text → Bool))
    → load_config files trust_domain_from_string compile path options expand_env ≡ ok (c, rest)
    → IsComplete c
unfolding load_config with_defaults
load_config-IsComplete files td compile path options expand_env c rest h =
    elim (Bool-cases (path == [])) [
      | inl q ↦ cc (rw q at h)
      | inr q ↦
          let (loaded, a, b) =
            first_ok (load_options_from_file files path options expand_env) (accept td compile)
              (rw q at h) in
          accepted loaded b
    ]
  where
    accepted :
        (p : ControllerManagerConfig × Options) → accept td compile p ≡ ok (c, rest) → IsComplete c
    accepted (config, o) g = elim (Bool-cases (config.trust_domain == [])) [
      | inl q ↦ cc (rw q at g)
      | inr q ↦
          let (x, a, b) =
            first_ok (td config.trust_domain)
              (λ x. parse_ignore_namespaces compile config.ignore_namespaces >>= λ regexes.
                ok (with_defaults config, (o, regexes)))
              (rw q at g) in
          let (y, d, e) =
            first_ok (parse_ignore_namespaces compile config.ignore_namespaces)
              (λ regexes. ok (with_defaults config, (o, regexes))) b in
          let pair : (with_defaults config, (o, y)) ≡ (c, rest) = cc e in
          subst IsComplete
            (ap (λ (z : ControllerManagerConfig × (Options × List (Text → Bool))). z.0) pair)
            (with_defaults-IsComplete config
              (λ empty. cc (q, (eq_iff config.trust_domain []).1 empty)))
    ]
