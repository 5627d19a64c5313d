-- ===== src/Config.antt =====
-- core/config/config.go: the configuration and its defaults. A float is its 64-bit pattern.
pub mod Validate
pub mod Accepts
pub mod ValidAi
pub mod Valid
mod Tests
use allidb.Base.{Bool, Bytes, List, [], codes, false, pos, true, ℕ, ℤ, ◌∷◌}

pub record NodeConfig : Type 0 where
  pub id : Bytes
  pub listen_address : Bytes
  pub grpc_port : ℤ
  pub http_port : ℤ
  pub data_dir : Bytes

pub record ClusterConfig : Type 0 where
  pub seed_nodes : List Bytes
  pub replication_factor : ℤ
  pub gossip_port : ℤ
  pub gossip_interval_ms : ℤ
  pub failure_timeout_ms : ℤ
  pub cleanup_interval_ms : ℤ
  pub fanout : ℤ
  pub virtual_nodes_per_node : ℤ

pub record WalConfig : Type 0 where
  pub max_file_mb : ℤ
  pub fsync : Bool

pub record MemtableConfig : Type 0 where
  pub max_mb : ℤ

pub record SstableConfig : Type 0 where
  pub block_size_kb : ℤ

pub record CompactionConfig : Type 0 where
  pub max_concurrent : ℤ
  pub size_tier_threshold : ℤ

pub record StorageConfig : Type 0 where
  pub wal : WalConfig
  pub memtable : MemtableConfig
  pub sstable : SstableConfig
  pub compaction : CompactionConfig

pub record HnswConfig : Type 0 where
  pub m : ℤ
  pub ef_construction : ℤ
  pub ef_search : ℤ
  pub shard_count : ℤ

pub record IndexConfig : Type 0 where
  pub hnsw : HnswConfig
  pub graph_cache_size : ℤ
  pub entity_cache_size : ℤ
  pub reload_interval_ms : ℤ
  pub realtime_index_enabled : Bool

pub record QueryConfig : Type 0 where
  pub default_consistency : Bytes
  pub max_graph_hops : ℤ
  pub timeout_ms : ℤ
  pub default_k : ℤ
  pub max_candidates : ℤ

pub record StaticApiKeyConfig : Type 0 where
  pub key : Bytes
  pub tenant_id : Bytes

pub record AuthConfig : Type 0 where
  pub enabled : Bool
  pub api_key_header : Bytes
  pub static_api_keys : List StaticApiKeyConfig

pub record TlsConfig : Type 0 where
  pub enabled : Bool
  pub cert_file : Bytes
  pub key_file : Bytes
  pub ca_file : Bytes

pub record SecurityConfig : Type 0 where
  pub auth : AuthConfig
  pub tls : TlsConfig

pub record ObservabilityConfig : Type 0 where
  pub log_level : Bytes
  pub metrics_enabled : Bool

pub record HintedHandoffConfig : Type 0 where
  pub enabled : Bool
  pub max_hints_per_node : ℤ
  pub max_size_mb : ℤ
  pub ttl_minutes : ℤ
  pub flush_interval_ms : ℤ

pub record AntiEntropyConfig : Type 0 where
  pub enabled : Bool
  pub interval_minutes : ℤ

pub record RepairConfig : Type 0 where
  pub read_repair_enabled : Bool
  pub hinted_handoff : HintedHandoffConfig
  pub anti_entropy : AntiEntropyConfig

pub record EmbeddingsConfig : Type 0 where
  pub provider : Bytes
  pub model : Bytes
  pub dim : ℤ
  pub timeout_ms : ℤ

pub record LlmConfig : Type 0 where
  pub provider : Bytes
  pub model : Bytes
  pub temperature : ℕ
  pub max_tokens : ℤ
  pub timeout_ms : ℤ

pub record EntityExtractionConfig : Type 0 where
  pub enabled : Bool
  pub max_retries : ℤ

pub record AiConfig : Type 0 where
  pub embeddings : EmbeddingsConfig
  pub llm : LlmConfig
  pub entity_extraction : EntityExtractionConfig

pub record Config : Type 0 where
  pub node : NodeConfig
  pub cluster : ClusterConfig
  pub storage : StorageConfig
  pub index : IndexConfig
  pub query : QueryConfig
  pub security : SecurityConfig
  pub observability : ObservabilityConfig
  pub repair : RepairConfig
  pub ai : AiConfig

abbrev pub default_config : Config
default_config = record {
  node = record {
    id = codes "node-1";
    listen_address = codes "0.0.0.0";
    grpc_port = pos 7000;
    http_port = pos 7001;
    data_dir = codes "/var/lib/allidb";
  };
  cluster = record {
    seed_nodes = codes "node-1:7000" ∷ codes "node-2:7000" ∷ [];
    replication_factor = pos 3;
    gossip_port = pos 7946;
    gossip_interval_ms = pos 1000;
    failure_timeout_ms = pos 5000;
    cleanup_interval_ms = pos 60000;
    fanout = pos 3;
    virtual_nodes_per_node = pos 150;
  };
  storage = record {
    wal = record { max_file_mb = pos 128; fsync = true };
    memtable = record { max_mb = pos 256 };
    sstable = record { block_size_kb = pos 64 };
    compaction = record { max_concurrent = pos 2; size_tier_threshold = pos 4 };
  };
  index = record {
    hnsw = record {
      m = pos 16;
      ef_construction = pos 200;
      ef_search = pos 64;
      shard_count = pos 16;
    };
    graph_cache_size = pos 10000;
    entity_cache_size = pos 1000;
    reload_interval_ms = pos 5000;
    realtime_index_enabled = false;
  };
  query = record {
    default_consistency = codes "QUORUM";
    max_graph_hops = pos 2;
    timeout_ms = pos 500;
    default_k = pos 10;
    max_candidates = pos 1000;
  };
  security = record {
    auth = record {
      enabled = true;
      api_key_header = codes "X-ALLIDB-API-KEY";
      static_api_keys = record { key = codes "test-api-key"; tenant_id = codes "tenant1" } ∷ [];
    };
    tls = record { enabled = false; cert_file = []; key_file = []; ca_file = [] };
  };
  observability = record { log_level = codes "INFO"; metrics_enabled = true };
  repair = record {
    read_repair_enabled = true;
    hinted_handoff = record {
      enabled = true;
      max_hints_per_node = pos 10000;
      max_size_mb = pos 1024;
      ttl_minutes = pos 60;
      flush_interval_ms = pos 1000;
    };
    anti_entropy = record { enabled = true; interval_minutes = pos 1440 };
  };
  ai = record {
    embeddings = record {
      provider = codes "openai";
      model = codes "text-embedding-3-large";
      dim = pos 3072;
      timeout_ms = pos 3000;
    };
    llm = record {
      provider = codes "openai";
      model = codes "gpt-4o-mini";
      temperature = 0;
      max_tokens = pos 2048;
      timeout_ms = pos 5000;
    };
    entity_extraction = record { enabled = true; max_retries = pos 2 };
  };
}
