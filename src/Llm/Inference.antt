-- ===== src/Llm/Inference.antt =====
-- backend/internal/llm/service.go with backend/internal/domain/recommendation.go: the trace of an inference,
-- and how much of the model's context a request may use.
use Prim.Native.String.{◌++◌ as append}
use crypto_market_advisor.Base.{
  ℕ, String, Bool, ◌&&◌, if◌then◌else◌, Option, none, some, ◌==◌, List, [], ◌∷◌,
}
use crypto_market_advisor.Base.Int.{negsuc, ℤ, pos, ◌-ℤ◌, quot_ℤ, ltb_ℤ, leb_ℤ}

-- A Go result with an error.
pub data Tried (E A : Type 0) : Type 0 where
  failed : E → Tried E A
  got : A → Tried E A

pub data InferenceStatus : Type 0 where
  inference_ok inference_repaired inference_invalid inference_transport_error : InferenceStatus
  inference_timeout inference_empty inference_cached inference_disabled : InferenceStatus

-- What errors.Is tells apart in the errors of the client.
pub data ClientError : Type 0 where
  client_disabled empty_completion deadline_exceeded : ClientError
  transport : String → ClientError

unfoldable pub status_for : ClientError → InferenceStatus
status_for client_disabled = inference_disabled
status_for empty_completion = inference_empty
status_for deadline_exceeded = inference_timeout
status_for (transport s) = inference_transport_error

pub data Role : Type 0 where
  role_system role_user : Role

pub record Message : Type 0 where
  pub role : Role
  pub content : String

pub record Completion : Type 0 where
  pub content : String
  pub latency_ms : ℕ
  pub prompt_tokens : ℤ
  pub completion_tokens : ℤ

-- The errors of Analyze and the messages of a record, kept as what they format.
pub data Failure : Type 0 where
  context_too_small : (context available output : ℤ) → Failure
  build_payload : String → Failure
  request_too_large : (prompt response reserve context : ℤ) → Failure
  err_disabled : Failure
  call_failed : ClientError → Failure
  repair_too_large : (prompt response reserve context : ℤ) → (problems : List String) → Failure
  repair_failed : ClientError → (problems : List String) → Failure
  validation_failed : (problems : List String) → Failure

-- Of InferenceRecord the fields that Analyze sets after the record is made; a status that is not set is
-- `none`, as is an empty message.
pub record InferenceRecord (V : Type 0) : Type 0 where
  pub model_name : String
  pub cache_key : Option String
  pub raw_output : String
  pub parsed_output : Option V
  pub status : Option InferenceStatus
  pub error_message : Option Failure
  pub repair_attempted : Bool
  pub latency_ms : ℕ
  pub prompt_tokens : Option ℤ
  pub completion_tokens : Option ℤ

-- Of LLMConfig the fields that Analyze reads.
pub record LlmConfig : Type 0 where
  pub model : String
  pub max_tokens : ℤ
  pub context_size : ℤ
  pub snapshot_max_tokens : ℤ

pub record BuildOptions : Type 0 where
  pub max_tokens : ℤ
  pub tail_candles : ℤ
  pub max_similar_cases : ℤ

abbrev pub default_context_size : ℤ
default_context_size = pos 16384

abbrev pub min_safety_tokens : ℤ
min_safety_tokens = pos 512

abbrev pub minimum_payload_tokens : ℤ
minimum_payload_tokens = pos 512

abbrev pub user_snapshot_prefix : String
user_snapshot_prefix = "Return ru, en, and zh-CN translations for this input.\n\nINPUT SNAPSHOT:\n"

unfoldable pub safety_tokens : ℤ → ℤ
safety_tokens context_size =
    let reserve = quot_ℤ context_size (pos 16) in
    if ltb_ℤ reserve min_safety_tokens then min_safety_tokens else reserve

-- The default of a context size that is not set.
unfoldable pub context_of : LlmConfig → ℤ
context_of cfg = if leb_ℤ cfg.context_size (pos 0) then default_context_size else cfg.context_size

-- `buildOptionsForContext`, with the estimates of the two texts.
unfoldable pub build_options_for_context :
    (base : BuildOptions)
    → LlmConfig
    → (system_estimate prefix_estimate : ℤ) → Tried Failure BuildOptions
unfolding safety_tokens context_of
build_options_for_context base cfg system_estimate prefix_estimate =
    let context_size = context_of cfg in
    let max_output = if leb_ℤ cfg.max_tokens (pos 0) then pos 1800 else cfg.max_tokens in
    let available =
      context_size
      -ℤ max_output
      -ℤ safety_tokens context_size
      -ℤ system_estimate
      -ℤ prefix_estimate in
    if ltb_ℤ available minimum_payload_tokens
    then failed (context_too_small context_size available max_output)
    else got (record base {
      max_tokens =
          if ltb_ℤ (pos 0) cfg.snapshot_max_tokens && ltb_ℤ cfg.snapshot_max_tokens available
          then cfg.snapshot_max_tokens
          else available;
    })

-- `intPtr`: a count of 0 is not known.
unfoldable pub int_ptr : ℤ → Option ℤ
int_ptr (pos n) = if n == 0 then none else some (pos n)
int_ptr (negsuc n) = some (negsuc n)

unfoldable pub problem_lines : List String → String
problem_lines [] = ""
problem_lines (p ∷ ps) = append "- " (append p (append "\n" (problem_lines ps)))

unfoldable pub repair_prompt : List String → String
unfolding problem_lines
repair_prompt problems =
    append "Your previous answer was rejected by the validator for these reasons:\n" (
      append (problem_lines problems)
        "\nReturn a corrected JSON object with the same schema. Fix every listed problem.\nIf you cannot produce a valid trade setup that satisfies the constraints, answer\nwith action \"NO_ACTION\" instead of forcing one. Output only the JSON object.")

unfoldable pub repair_content : (answer : String) → List String → String
unfolding repair_prompt
repair_content answer problems =
    append "INVALID OUTPUT:\n" (append answer (append "\n\n" (repair_prompt problems)))
