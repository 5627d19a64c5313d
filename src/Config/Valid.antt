-- ===== src/Config/Valid.antt =====
-- What a configuration that passes all checks is, and that the checks accept no other.
use allidb.Config.{
  Config, NodeConfig, ClusterConfig, StorageConfig, IndexConfig, QueryConfig, SecurityConfig,
  StaticApiKeyConfig, TlsConfig, ObservabilityConfig, HintedHandoffConfig, RepairConfig,
}
use allidb.Config.Validate.{
  Files, int_lt, is_usable_dir, exists, consistencies, log_levels, validate_node, validate_seed,
  validate_cluster, validate_storage, validate_index, validate_query, validate_key, validate_tls,
  validate_security, validate_observability, validate_hinted_handoff, validate_repair, validate,
}
use allidb.Config.Accepts.{
  ◌and◌, AtLeast, Within, NonEmpty, OneOf, Accepts, fail_if-Accepts, both, at_least-Accepts,
  between-Accepts, port-Accepts, non_empty-Accepts, one_of-Accepts, holds-Accepts, fails-Accepts,
  when-Accepts, each-Accepts, differ-Accepts,
}
use allidb.Config.ValidAi.{ValidAi, validate_ai-ValidAi}
use allidb.Base.{All, Bytes, any, arith, false, length, ltb, not, pos, true, ◌==◌, ◌||◌, ◌≡◌, ◌≢◌}

abbrev pub ValidNode : Files → NodeConfig → Type 0
ValidNode fs c =
    NonEmpty c.id
    and NonEmpty c.listen_address
    and Within 1 65535 c.grpc_port
    and Within 1 65535 c.http_port
    and (c.grpc_port ≢ c.http_port)
    and NonEmpty c.data_dir
    and (is_usable_dir fs (fs.abs c.data_dir) ≡ true)

validate_node-ValidNode :
    (fs : Files) (c : NodeConfig) → Accepts (validate_node fs c) (ValidNode fs c)
unfolding validate_node
validate_node-ValidNode fs c = both (non_empty-Accepts _ c.id) (
    both (non_empty-Accepts _ c.listen_address) (
      both (port-Accepts _ c.grpc_port) (
        both (port-Accepts _ c.http_port) (
          both (differ-Accepts c.grpc_port c.http_port _) (
            both (non_empty-Accepts _ c.data_dir)
              (holds-Accepts (is_usable_dir fs (fs.abs c.data_dir)) _))))))

abbrev pub ValidSeed : Bytes → Type 0
ValidSeed c = (NonEmpty c) and ((ltb (length c) 3 || not (any (λ x. x == 58) c)) ≡ false)

validate_seed-ValidSeed : (c : Bytes) → Accepts (validate_seed c) (ValidSeed c)
unfolding validate_seed
validate_seed-ValidSeed c =
    both (non_empty-Accepts _ c) (fails-Accepts (ltb (length c) 3 || not (any (λ x. x == 58) c)) _)

abbrev pub ValidCluster : ClusterConfig → Type 0
ValidCluster c =
    NonEmpty c.seed_nodes
    and All ValidSeed c.seed_nodes
    and Within 1 10 c.replication_factor
    and AtLeast 100 c.gossip_interval_ms
    and AtLeast 1000 c.failure_timeout_ms
    and (int_lt c.gossip_interval_ms c.failure_timeout_ms ≡ true)
    and Within 1 65535 c.gossip_port
    and AtLeast 1000 c.cleanup_interval_ms
    and Within 1 10 c.fanout
    and Within 1 1000 c.virtual_nodes_per_node

validate_cluster-ValidCluster : (c : ClusterConfig) → Accepts (validate_cluster c) (ValidCluster c)
unfolding validate_cluster
validate_cluster-ValidCluster c =
    both
      (fail_if-Accepts (length c.seed_nodes == 0) _ (NonEmpty c.seed_nodes)
        (λ h. ground (arith, h), λ h. ground (arith, h)))
      (both (each-Accepts validate_seed ValidSeed validate_seed-ValidSeed c.seed_nodes) (
        both (between-Accepts 1 10 _ c.replication_factor) (
          both (at_least-Accepts 100 _ c.gossip_interval_ms) (
            both (at_least-Accepts 1000 _ c.failure_timeout_ms) (
              both (holds-Accepts (int_lt c.gossip_interval_ms c.failure_timeout_ms) _) (
                both (port-Accepts _ c.gossip_port) (
                  both (at_least-Accepts 1000 _ c.cleanup_interval_ms) (
                    both (between-Accepts 1 10 _ c.fanout)
                      (between-Accepts 1 1000 _ c.virtual_nodes_per_node)))))))))

abbrev pub ValidStorage : StorageConfig → Type 0
ValidStorage c =
    Within 1 10240 c.wal.max_file_mb
    and Within 1 10240 c.memtable.max_mb
    and Within 1 1024 c.sstable.block_size_kb
    and Within 1 10 c.compaction.max_concurrent
    and AtLeast 2 c.compaction.size_tier_threshold

validate_storage-ValidStorage : (c : StorageConfig) → Accepts (validate_storage c) (ValidStorage c)
unfolding validate_storage
validate_storage-ValidStorage c = both (between-Accepts 1 10240 _ c.wal.max_file_mb) (
    both (between-Accepts 1 10240 _ c.memtable.max_mb) (
      both (between-Accepts 1 1024 _ c.sstable.block_size_kb) (
        both (between-Accepts 1 10 _ c.compaction.max_concurrent)
          (at_least-Accepts 2 _ c.compaction.size_tier_threshold))))

abbrev pub ValidIndex : IndexConfig → Type 0
ValidIndex c =
    Within 2 128 c.hnsw.m
    and (int_lt c.hnsw.ef_construction c.hnsw.m ≡ false)
    and (int_lt (pos 1000) c.hnsw.ef_construction ≡ false)
    and Within 1 1000 c.hnsw.ef_search
    and Within 1 64 c.hnsw.shard_count
    and AtLeast 0 c.graph_cache_size
    and AtLeast 0 c.entity_cache_size
    and Within 100 600000 c.reload_interval_ms

validate_index-ValidIndex : (c : IndexConfig) → Accepts (validate_index c) (ValidIndex c)
unfolding validate_index
validate_index-ValidIndex c = both (between-Accepts 2 128 _ c.hnsw.m) (
    both (fails-Accepts (int_lt c.hnsw.ef_construction c.hnsw.m) _) (
      both (fails-Accepts (int_lt (pos 1000) c.hnsw.ef_construction) _) (
        both (between-Accepts 1 1000 _ c.hnsw.ef_search) (
          both (between-Accepts 1 64 _ c.hnsw.shard_count) (
            both (at_least-Accepts 0 _ c.graph_cache_size) (
              both (at_least-Accepts 0 _ c.entity_cache_size)
                (between-Accepts 100 600000 _ c.reload_interval_ms)))))))

abbrev pub ValidQuery : QueryConfig → Type 0
ValidQuery c =
    OneOf consistencies c.default_consistency
    and Within 0 10 c.max_graph_hops
    and Within 1 60000 c.timeout_ms
    and Within 1 10000 c.default_k
    and Within 1 100000 c.max_candidates

validate_query-ValidQuery : (c : QueryConfig) → Accepts (validate_query c) (ValidQuery c)
unfolding validate_query
validate_query-ValidQuery c = both (one_of-Accepts consistencies _ c.default_consistency) (
    both (between-Accepts 0 10 _ c.max_graph_hops) (
      both (between-Accepts 1 60000 _ c.timeout_ms) (
        both (between-Accepts 1 10000 _ c.default_k)
          (between-Accepts 1 100000 _ c.max_candidates))))

abbrev pub ValidKey : StaticApiKeyConfig → Type 0
ValidKey c = (NonEmpty c.key) and NonEmpty c.tenant_id

validate_key-ValidKey : (c : StaticApiKeyConfig) → Accepts (validate_key c) (ValidKey c)
unfolding validate_key
validate_key-ValidKey c = both (non_empty-Accepts _ c.key) (non_empty-Accepts _ c.tenant_id)

abbrev pub ValidTls : Files → TlsConfig → Type 0
ValidTls fs c =
    NonEmpty c.cert_file
    and NonEmpty c.key_file
    and (exists fs c.cert_file ≡ true)
    and (exists fs c.key_file ≡ true)
    and (ltb 0 (length c.ca_file) ≡ true → exists fs c.ca_file ≡ true)

validate_tls-ValidTls : (fs : Files) (c : TlsConfig) → Accepts (validate_tls fs c) (ValidTls fs c)
unfolding validate_tls
validate_tls-ValidTls fs c = both (non_empty-Accepts _ c.cert_file) (
    both (non_empty-Accepts _ c.key_file) (
      both (holds-Accepts (exists fs c.cert_file) _) (
        both (holds-Accepts (exists fs c.key_file) _)
          (when-Accepts (ltb 0 (length c.ca_file)) _ _ (holds-Accepts (exists fs c.ca_file) _)))))

abbrev pub ValidSecurity : Files → SecurityConfig → Type 0
ValidSecurity fs c =
    NonEmpty c.auth.api_key_header
    and All ValidKey c.auth.static_api_keys
    and (c.tls.enabled ≡ true → ValidTls fs c.tls)

validate_security-ValidSecurity :
    (fs : Files) (c : SecurityConfig) → Accepts (validate_security fs c) (ValidSecurity fs c)
unfolding validate_security
validate_security-ValidSecurity fs c = both (non_empty-Accepts _ c.auth.api_key_header) (
    both (each-Accepts validate_key ValidKey validate_key-ValidKey c.auth.static_api_keys)
      (when-Accepts c.tls.enabled _ _ (validate_tls-ValidTls fs c.tls)))

abbrev pub ValidObservability : ObservabilityConfig → Type 0
ValidObservability c = (OneOf log_levels c.log_level)

validate_observability-ValidObservability :
    (c : ObservabilityConfig) → Accepts (validate_observability c) (ValidObservability c)
unfolding validate_observability
validate_observability-ValidObservability c = one_of-Accepts log_levels _ c.log_level

abbrev pub ValidHintedHandoff : HintedHandoffConfig → Type 0
ValidHintedHandoff c =
    AtLeast 1 c.max_hints_per_node
    and Within 1 10080 c.ttl_minutes
    and Within 1 1048576 c.max_size_mb
    and Within 100 60000 c.flush_interval_ms

validate_hinted_handoff-ValidHintedHandoff :
    (c : HintedHandoffConfig) → Accepts (validate_hinted_handoff c) (ValidHintedHandoff c)
unfolding validate_hinted_handoff
validate_hinted_handoff-ValidHintedHandoff c = both (at_least-Accepts 1 _ c.max_hints_per_node) (
    both (between-Accepts 1 10080 _ c.ttl_minutes) (
      both (between-Accepts 1 1048576 _ c.max_size_mb)
        (between-Accepts 100 60000 _ c.flush_interval_ms)))

abbrev pub ValidRepair : RepairConfig → Type 0
ValidRepair c =
    (c.hinted_handoff.enabled ≡ true → ValidHintedHandoff c.hinted_handoff)
    and (c.anti_entropy.enabled ≡ true → Within 1 10080 c.anti_entropy.interval_minutes)

validate_repair-ValidRepair : (c : RepairConfig) → Accepts (validate_repair c) (ValidRepair c)
unfolding validate_repair
validate_repair-ValidRepair c =
    both
      (when-Accepts c.hinted_handoff.enabled _ _
        (validate_hinted_handoff-ValidHintedHandoff c.hinted_handoff))
      (when-Accepts c.anti_entropy.enabled _ _
        (between-Accepts 1 10080 _ c.anti_entropy.interval_minutes))

abbrev pub Valid : Files → Config → Type 0
Valid fs c =
    ValidNode fs c.node
    and ValidCluster c.cluster
    and ValidStorage c.storage
    and ValidIndex c.index
    and ValidQuery c.query
    and ValidSecurity fs c.security
    and ValidObservability c.observability
    and ValidRepair c.repair
    and ValidAi c.ai

pub validate-Valid : (fs : Files) (c : Config) → Accepts (validate fs c) (Valid fs c)
unfolding validate
validate-Valid fs c = both (validate_node-ValidNode fs c.node) (
    both (validate_cluster-ValidCluster c.cluster) (
      both (validate_storage-ValidStorage c.storage) (
        both (validate_index-ValidIndex c.index) (
          both (validate_query-ValidQuery c.query) (
            both (validate_security-ValidSecurity fs c.security) (
              both (validate_observability-ValidObservability c.observability)
                (both (validate_repair-ValidRepair c.repair) (validate_ai-ValidAi c.ai))))))))
