-- ===== src/Config/Tests.antt =====
-- The default configuration, and some that are not valid.
use allidb.Config.{LlmConfig, default_config}
use allidb.Config.Validate.{
  Files, a_directory, missing, not_usable, too_large, invalid, validate, validate_node,
  validate_cluster, validate_llm,
}
use allidb.Config.Valid.{Valid}
use allidb.Base.{codes, err, false, ok, pos, refl, some, str_eq, ℕ, ◌*◌, ◌+◌, ◌^◌, ◌≡◌}

-- Each path is a directory, or none is there and none can be made.
abbrev files : Files
files = record { abs = some; stat = λ path. a_directory; mkdir_all = λ path. false }

abbrev no_files : Files
no_files = record { abs = some; stat = λ path. missing; mkdir_all = λ path. false }

default_passes : validate files default_config ≡ ok tt
unfolding validate str_eq
default_passes = refl

no_directory : validate_node no_files default_config.node ≡ err (not_usable (codes "data_dir"))
unfolding validate_node
no_directory = refl

too_many_copies :
    validate_cluster (record (default_config.cluster) { replication_factor = pos 11 })
    ≡ err (too_large (codes "replication_factor"))
unfolding validate_cluster
too_many_copies = refl

abbrev llm_at : ℕ → LlmConfig
llm_at t = record (default_config.ai.llm) { temperature = t }

-- 2.5 is refused, and NaN is not.
too_hot : validate_llm (llm_at (2 ^ 62 + 2 ^ 50)) ≡ err (invalid (codes "ai.llm.temperature"))
unfolding validate_llm str_eq
too_hot = refl

not_a_number : validate_llm (llm_at (4095 * 2 ^ 51)) ≡ ok tt
unfolding validate_llm str_eq
not_a_number = refl
