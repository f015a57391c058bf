-- ===== src/Cluster.antt =====
-- internal/cluster/manager.go: the connections to the clusters.
pub mod Manager
