-- ===== src/Config/Validate.antt =====
-- core/config/validate.go: the checks, in their order. An error is its kind and the field it names;
-- the files are what os.Stat and the other calls would answer.
use allidb.Config.{
  Config, NodeConfig, ClusterConfig, StorageConfig, IndexConfig, QueryConfig, SecurityConfig,
  StaticApiKeyConfig, TlsConfig, ObservabilityConfig, HintedHandoffConfig, RepairConfig,
  EmbeddingsConfig, LlmConfig, EntityExtractionConfig, AiConfig,
}
use allidb.Base.{
  Bool, Bytes, List, Option, Result, [], any, codes, fail_if, false, leb, length, ltb, negsuc, none,
  not, ok, pos, some, str_eq, true, ℕ, ℤ, ◌&&◌, ◌*◌, ◌+◌, ◌==◌, ◌>>◌, ◌^◌, ◌||◌, ◌∷◌,
}

pub data ConfigError : Type 0 where
  required too_small too_large invalid not_usable : Bytes → ConfigError

pub data Stat : Type 0 where
  a_directory a_file missing denied : Stat

-- filepath.Abs, os.Stat, and whether os.MkdirAll succeeds
pub record Files : Type 0 where
  pub abs : Bytes → Option Bytes
  pub stat : Bytes → Stat
  pub mkdir_all : Bytes → Bool

abbrev pub Checked : Type 0
Checked = Result ConfigError (Unit {0})

abbrev pub int_lt : ℤ → ℤ → Bool
int_lt (pos m) (pos n) = ltb m n
int_lt (pos m) (negsuc n) = false
int_lt (negsuc m) (pos n) = true
int_lt (negsuc m) (negsuc n) = ltb n m

abbrev pub int_eq : ℤ → ℤ → Bool
int_eq (pos m) (pos n) = m == n
int_eq (pos m) (negsuc n) = false
int_eq (negsuc m) (pos n) = false
int_eq (negsuc m) (negsuc n) = m == n

abbrev pub at_least : ℕ → Bytes → ℤ → Checked
at_least low name x = fail_if (int_lt x (pos low)) (too_small name)

abbrev pub at_most : ℕ → Bytes → ℤ → Checked
at_most high name x = fail_if (int_lt (pos high) x) (too_large name)

abbrev pub between : ℕ → ℕ → Bytes → ℤ → Checked
between low high name x = at_least low name x >> at_most high name x

abbrev pub non_empty : Bytes → Bytes → Checked
non_empty name s = fail_if (length s == 0) (required name)

abbrev pub one_of : List Bytes → Bytes → Bytes → Checked
one_of words name s = fail_if (not (any (str_eq s) words)) (invalid name)

-- if enabled { … }
abbrev pub when : Bool → Checked → Checked
when true checks = checks
when false checks = ok tt

abbrev pub each {ℓ} : {A : Type ℓ} → (A → Checked) → List A → Checked
each check [] = ok tt
each check (x ∷ xs) = check x >> each check xs

abbrev pub port : Bytes → ℤ → Checked
port name x = fail_if (int_lt x (pos 1) || int_lt (pos 65535) x) (invalid name)

abbrev pub is_usable_dir : Files → Option Bytes → Bool
is_usable_dir fs none = false
is_usable_dir fs (some path) = elim (fs.stat path) [
  | a_directory ↦ true
  | a_file ↦ false
  | missing ↦ fs.mkdir_all path
  | denied ↦ false
]

abbrev pub exists : Files → Bytes → Bool
exists fs path = elim (fs.stat path) [
  | a_directory ↦ true
  | a_file ↦ true
  | missing ↦ false
  | denied ↦ false
]

unfoldable pub validate_node : Files → NodeConfig → Checked
validate_node fs c = do
  non_empty (codes "id") c.id
  non_empty (codes "listen_address") c.listen_address
  port (codes "grpc_port") c.grpc_port
  port (codes "http_port") c.http_port
  fail_if (int_eq c.grpc_port c.http_port) (invalid (codes "http_port"))
  non_empty (codes "data_dir") c.data_dir
  fail_if (not (is_usable_dir fs (fs.abs c.data_dir))) (not_usable (codes "data_dir"))

-- host:port
unfoldable pub validate_seed : Bytes → Checked
validate_seed seed = do
  non_empty (codes "seed_nodes") seed
  fail_if (ltb (length seed) 3 || not (any (λ c. c == 58) seed)) (invalid (codes "seed_nodes"))

unfoldable pub validate_cluster : ClusterConfig → Checked
unfolding validate_seed
validate_cluster c = do
  fail_if (length c.seed_nodes == 0) (required (codes "seed_nodes"))
  each validate_seed c.seed_nodes
  between 1 10 (codes "replication_factor") c.replication_factor
  at_least 100 (codes "gossip_interval_ms") c.gossip_interval_ms
  at_least 1000 (codes "failure_timeout_ms") c.failure_timeout_ms
  fail_if (not (int_lt c.gossip_interval_ms c.failure_timeout_ms))
      (invalid (codes "failure_timeout_ms"))
  port (codes "gossip_port") c.gossip_port
  at_least 1000 (codes "cleanup_interval_ms") c.cleanup_interval_ms
  between 1 10 (codes "fanout") c.fanout
  between 1 1000 (codes "virtual_nodes_per_node") c.virtual_nodes_per_node

unfoldable pub validate_storage : StorageConfig → Checked
validate_storage c = do
  between 1 10240 (codes "wal.max_file_mb") c.wal.max_file_mb
  between 1 10240 (codes "memtable.max_mb") c.memtable.max_mb
  between 1 1024 (codes "sstable.block_size_kb") c.sstable.block_size_kb
  between 1 10 (codes "compaction.max_concurrent") c.compaction.max_concurrent
  at_least 2 (codes "compaction.size_tier_threshold") c.compaction.size_tier_threshold

unfoldable pub validate_index : IndexConfig → Checked
validate_index c = do
  between 2 128 (codes "index.hnsw.m") c.hnsw.m
  fail_if (int_lt c.hnsw.ef_construction c.hnsw.m) (too_small (codes "index.hnsw.ef_construction"))
  at_most 1000 (codes "index.hnsw.ef_construction") c.hnsw.ef_construction
  between 1 1000 (codes "index.hnsw.ef_search") c.hnsw.ef_search
  between 1 64 (codes "index.hnsw.shard_count") c.hnsw.shard_count
  at_least 0 (codes "index.graph_cache_size") c.graph_cache_size
  at_least 0 (codes "index.entity_cache_size") c.entity_cache_size
  between 100 600000 (codes "index.reload_interval_ms") c.reload_interval_ms

abbrev pub consistencies : List Bytes
consistencies = codes "ONE" ∷ codes "QUORUM" ∷ codes "ALL" ∷ []

unfoldable pub validate_query : QueryConfig → Checked
validate_query c = do
  one_of consistencies (codes "query.default_consistency") c.default_consistency
  between 0 10 (codes "query.max_graph_hops") c.max_graph_hops
  between 1 60000 (codes "query.timeout_ms") c.timeout_ms
  between 1 10000 (codes "query.default_k") c.default_k
  between 1 100000 (codes "query.max_candidates") c.max_candidates

unfoldable pub validate_key : StaticApiKeyConfig → Checked
validate_key k = do
  non_empty (codes "security.auth.static_api_keys.key") k.key
  non_empty (codes "security.auth.static_api_keys.tenant_id") k.tenant_id

unfoldable pub validate_tls : Files → TlsConfig → Checked
validate_tls fs c = do
  non_empty (codes "security.tls.cert_file") c.cert_file
  non_empty (codes "security.tls.key_file") c.key_file
  fail_if (not (exists fs c.cert_file)) (not_usable (codes "security.tls.cert_file"))
  fail_if (not (exists fs c.key_file)) (not_usable (codes "security.tls.key_file"))
  when (ltb 0 (length c.ca_file))
      (fail_if (not (exists fs c.ca_file)) (not_usable (codes "security.tls.ca_file")))

unfoldable pub validate_security : Files → SecurityConfig → Checked
unfolding validate_key validate_tls
validate_security fs c = do
  non_empty (codes "security.auth.api_key_header") c.auth.api_key_header
  each validate_key c.auth.static_api_keys
  when c.tls.enabled (validate_tls fs c.tls)

abbrev pub log_levels : List Bytes
log_levels = codes "DEBUG" ∷ codes "INFO" ∷ codes "WARN" ∷ codes "ERROR" ∷ []

unfoldable pub validate_observability : ObservabilityConfig → Checked
validate_observability c = one_of log_levels (codes "observability.log_level") c.log_level

unfoldable pub validate_hinted_handoff : HintedHandoffConfig → Checked
validate_hinted_handoff c = do
  at_least 1 (codes "repair.hinted_handoff.max_hints_per_node") c.max_hints_per_node
  between 1 10080 (codes "repair.hinted_handoff.ttl_minutes") c.ttl_minutes
  between 1 1048576 (codes "repair.hinted_handoff.max_size_mb") c.max_size_mb
  between 100 60000 (codes "repair.hinted_handoff.flush_interval_ms") c.flush_interval_ms

unfoldable pub validate_repair : RepairConfig → Checked
unfolding validate_hinted_handoff
validate_repair c = do
  when c.hinted_handoff.enabled (validate_hinted_handoff c.hinted_handoff)
  when c.anti_entropy.enabled (
      between 1 10080 (codes "repair.anti_entropy.interval_minutes")
        c.anti_entropy.interval_minutes)

abbrev pub providers : List Bytes
providers = codes "openai" ∷ codes "ollama" ∷ codes "local" ∷ codes "custom" ∷ []

-- t < 0.0 || t > 2.0, on the pattern of a float: -0.0 is not below 0.0, and NaN is neither.
unfoldable pub is_outside : ℕ → Bool
is_outside t =
    (ltb (2 ^ 63) t && leb t (2 ^ 63 + 2047 * 2 ^ 52)) || (ltb (2 ^ 62) t && leb t (2047 * 2 ^ 52))

unfoldable pub validate_embeddings : EmbeddingsConfig → Checked
validate_embeddings c = do
  one_of providers (codes "ai.embeddings.provider") c.provider
  non_empty (codes "ai.embeddings.model") c.model
  between 1 16384 (codes "ai.embeddings.dim") c.dim
  between 100 60000 (codes "ai.embeddings.timeout_ms") c.timeout_ms

unfoldable pub validate_llm : LlmConfig → Checked
unfolding is_outside
validate_llm c = do
  one_of providers (codes "ai.llm.provider") c.provider
  non_empty (codes "ai.llm.model") c.model
  fail_if (is_outside c.temperature) (invalid (codes "ai.llm.temperature"))
  between 1 32768 (codes "ai.llm.max_tokens") c.max_tokens
  between 100 120000 (codes "ai.llm.timeout_ms") c.timeout_ms

-- Its own checks of the provider and the model repeat those of validate_llm.
unfoldable pub validate_extraction : LlmConfig → EntityExtractionConfig → Checked
validate_extraction llm c = do
  one_of providers (codes "ai.llm.provider") llm.provider
  non_empty (codes "ai.llm.model") llm.model
  between 0 10 (codes "ai.entity_extraction.max_retries") c.max_retries

unfoldable pub validate_ai : AiConfig → Checked
unfolding validate_embeddings validate_llm validate_extraction
validate_ai c = do
  validate_embeddings c.embeddings
  validate_llm c.llm
  when c.entity_extraction.enabled (validate_extraction c.llm c.entity_extraction)

unfoldable pub validate : Files → Config → Checked
unfolding validate_node validate_cluster validate_storage validate_index validate_query
    validate_security validate_observability validate_repair validate_ai
validate fs c = do
  validate_node fs c.node
  validate_cluster c.cluster
  validate_storage c.storage
  validate_index c.index
  validate_query c.query
  validate_security fs c.security
  validate_observability c.observability
  validate_repair c.repair
  validate_ai c.ai
