-- ===== src/Aws.antt =====
-- internal/aws: the kubeconfig of an EKS cluster, and the cache of Kubernetes clients. The AWS SDK,
-- base64 and client-go are parameters, and a time is a number of nanoseconds.
pub mod Cache
use spire_eks_workload_regis.Prelude.{
  ℕ, ◌*◌, ◌-◌, ◌≡◌, Bool, not, List, [], ◌∷◌, ◌++◌, Option, none, some, Result, ok, wrap,
  if◌then◌else◌, ltb, deref, ◌>>=◌,
}
use spire_eks_workload_regis.Prelude.Exec.{Exec, continue, lift}
use spire_eks_workload_regis.Prelude.Maps.{Map, lookup, insert}
use spire_eks_workload_regis.Text.{Text, bytes, ◌==◌}
use spire_eks_workload_regis.Api.{EksClusterRegistry, text_keys}

-- eks.Cluster, the fields that are read; both are pointers, and the data a pointer in a pointer
pub record EksCluster : Type 0 where
  pub certificate_authority : Option (Option Text)
  pub endpoint : Option Text

-- api.Config of clientcmd, the parts that vary: the server, its certificate, the name of the
-- cluster, and the arguments of the aws command
pub record KubeConfig : Type 0 where
  pub server : Text
  pub certificate_authority_data : Text
  pub cluster_name : Text
  pub args : List Text

-- The SDK at a time: DescribeCluster in a region; and what makes a client of a kubeconfig.
pub record Sdk : Type 1 where
  pub KubeClient : Type 0
  pub RestConfig : Type 0
  pub describe_cluster : ℕ → Text → Text → Result EksCluster
  pub decode_base64 : Text → Result Text
  pub client_config : KubeConfig → Result RestConfig
  pub new_for_config : RestConfig → Result KubeClient
  pub to_yaml : KubeConfig → Result Text

-- aws.StringValue
abbrev pub string_value : Option Text → Text
string_value none = []
string_value (some t) = t

-- buildAwsArgs
unfoldable pub build_aws_args : EksClusterRegistry → List Text
build_aws_args cluster =
    let args =
      bytes "eks" ∷ bytes "get-token" ∷ bytes "--cluster-name" ∷ cluster.spec.cluster_name ∷ [] in
    let region =
      if not (cluster.spec.region == []) then bytes "--region" ∷ cluster.spec.region ∷ [] else [] in
    let role =
      if not (cluster.spec.assume_role_arn == [])
      then bytes "--role-arn" ∷ cluster.spec.assume_role_arn ∷ []
      else [] in
    args ++ (region ++ role)

-- 30 * time.Minute
abbrev pub stale_after : ℕ
stale_after = 30 * 60 * 1000000000

module _ (sdk : Sdk) where
  open sdk use {KubeClient}

  -- type clusterClient
  pub record ClusterClient : Type 0 where
    pub client : KubeClient
    pub last_used : ℕ

  -- Manager.clients
  abbrev pub ClientCache : Type 0
  ClientCache = Map Text ClusterClient

  -- NewKubeConfigForCluster
  unfoldable pub new_kube_config_for_cluster : EksClusterRegistry → EksCluster → Result KubeConfig
  new_kube_config_for_cluster cluster eks_cluster =
      deref eks_cluster.certificate_authority >>= λ data_pointer.
      wrap "failed to decode CA data" (sdk.decode_base64 (string_value data_pointer)) >>= λ ca_data.
      ok (record {
        server = string_value eks_cluster.endpoint;
        certificate_authority_data = ca_data;
        cluster_name = cluster.spec.cluster_name;
        args = build_aws_args cluster;
      })

  -- The start that createClusterClient and GenerateKubeConfig share.
  unfoldable pub describe_config : ℕ → EksClusterRegistry → Result KubeConfig
  describe_config now cluster =
      wrap "failed to describe cluster"
        (sdk.describe_cluster now cluster.spec.region cluster.spec.cluster_name)
      >>= λ described.
          wrap "failed to create kubeconfig" (new_kube_config_for_cluster cluster described)

  -- createClusterClient
  unfoldable pub create_cluster_client : ℕ → EksClusterRegistry → Result KubeClient
  create_cluster_client now cluster = describe_config now cluster >>= λ kube_config.
      wrap "failed to build client config" (sdk.client_config kube_config) >>= λ config.
      sdk.new_for_config config

  -- GenerateKubeConfig
  unfoldable pub generate_kube_config : ℕ → EksClusterRegistry → Result Text
  generate_kube_config now cluster =
      describe_config now cluster >>= λ kube_config. sdk.to_yaml kube_config

  -- GetClusterClient at a time
  abbrev pub cached_or_new :
      Option ClusterClient → ℕ → EksClusterRegistry → Exec ClientCache KubeClient
  cached_or_new (some c) now cluster m = (
    ok c.client,
    insert text_keys cluster.meta.name (record { client = c.client; last_used = now }) m,
  )
  cached_or_new none now cluster m =
      continue (create_cluster_client now cluster)
        (λ client m'. (
          ok client,
          insert text_keys cluster.meta.name (record { client = client; last_used = now }) m',
        ))
        m

  unfoldable pub get_cluster_client : ℕ → EksClusterRegistry → Exec ClientCache KubeClient
  get_cluster_client now cluster m =
      cached_or_new (lookup text_keys cluster.meta.name m) now cluster m

  -- CleanupStaleClients at a time
  unfoldable pub cleanup_stale_clients : ℕ → ClientCache → ClientCache
  cleanup_stale_clients now [] = []
  cleanup_stale_clients now ((name, c) ∷ m) =
      let rest = cleanup_stale_clients now m in
      if ltb c.last_used (now - stale_after) then rest else (name, c) ∷ rest
