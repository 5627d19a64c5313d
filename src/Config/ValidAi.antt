-- ===== src/Config/ValidAi.antt =====
-- What the checks of the AI settings accept.
use allidb.Config.{EmbeddingsConfig, LlmConfig, EntityExtractionConfig, AiConfig}
use allidb.Config.Validate.{
  providers, is_outside, validate_embeddings, validate_llm, validate_extraction, validate_ai,
}
use allidb.Config.Accepts.{
  ◌and◌, Within, NonEmpty, OneOf, Accepts, both, between-Accepts, non_empty-Accepts, one_of-Accepts,
  fails-Accepts, when-Accepts,
}
use allidb.Base.{false, true, ◌≡◌}

abbrev pub ValidEmbeddings : EmbeddingsConfig → Type 0
ValidEmbeddings c =
    OneOf providers c.provider
    and NonEmpty c.model
    and Within 1 16384 c.dim
    and Within 100 60000 c.timeout_ms

pub validate_embeddings-ValidEmbeddings :
    (c : EmbeddingsConfig) → Accepts (validate_embeddings c) (ValidEmbeddings c)
unfolding validate_embeddings
validate_embeddings-ValidEmbeddings c = both (one_of-Accepts providers _ c.provider) (
    both (non_empty-Accepts _ c.model)
      (both (between-Accepts 1 16384 _ c.dim) (between-Accepts 100 60000 _ c.timeout_ms)))

abbrev pub ValidLlm : LlmConfig → Type 0
ValidLlm c =
    OneOf providers c.provider
    and NonEmpty c.model
    and (is_outside c.temperature ≡ false)
    and Within 1 32768 c.max_tokens
    and Within 100 120000 c.timeout_ms

pub validate_llm-ValidLlm : (c : LlmConfig) → Accepts (validate_llm c) (ValidLlm c)
unfolding validate_llm
validate_llm-ValidLlm c = both (one_of-Accepts providers _ c.provider) (
    both (non_empty-Accepts _ c.model) (
      both (fails-Accepts (is_outside c.temperature) _) (
        both (between-Accepts 1 32768 _ c.max_tokens) (between-Accepts 100 120000 _ c.timeout_ms))))

abbrev pub ValidExtraction : LlmConfig → EntityExtractionConfig → Type 0
ValidExtraction llm c =
    OneOf providers llm.provider and NonEmpty llm.model and Within 0 10 c.max_retries

pub validate_extraction-ValidExtraction :
    (llm : LlmConfig) (c : EntityExtractionConfig)
    → Accepts (validate_extraction llm c) (ValidExtraction llm c)
unfolding validate_extraction
validate_extraction-ValidExtraction llm c =
    both (one_of-Accepts providers _ llm.provider)
      (both (non_empty-Accepts _ llm.model) (between-Accepts 0 10 _ c.max_retries))

abbrev pub ValidAi : AiConfig → Type 0
ValidAi c =
    ValidEmbeddings c.embeddings
    and ValidLlm c.llm
    and (c.entity_extraction.enabled ≡ true → ValidExtraction c.llm c.entity_extraction)

pub validate_ai-ValidAi : (c : AiConfig) → Accepts (validate_ai c) (ValidAi c)
unfolding validate_ai
validate_ai-ValidAi c = both (validate_embeddings-ValidEmbeddings c.embeddings) (
    both (validate_llm-ValidLlm c.llm) (
      when-Accepts c.entity_extraction.enabled _ _
        (validate_extraction-ValidExtraction c.llm c.entity_extraction)))
