-- ===== src/Llm/Service.antt =====
-- backend/internal/llm/service.go: `Analyze`, one inference with one repair. The texts of the prompt, the
-- compaction of the snapshot, the estimate of tokens, the client, the cache, and the parts of the validation
-- are arguments.
use Prim.Native.String.{◌++◌ as append}
use crypto_market_advisor.Base.{
  ℕ, ◌+◌, String, Bool, true, false, ◌&&◌, if◌then◌else◌, Option, none, some, List, [], ◌∷◌,
}
use crypto_market_advisor.Base.Int.{ℤ, ◌+ℤ◌, ltb_ℤ}
use crypto_market_advisor.Llm.Inference.{
  Tried, failed, got, inference_ok, inference_repaired, inference_invalid, inference_cached,
  inference_disabled, ClientError, status_for, Message, role_system, role_user, Completion, Failure,
  build_payload, request_too_large, err_disabled, call_failed, repair_too_large, repair_failed,
  validation_failed, InferenceRecord, LlmConfig, BuildOptions, user_snapshot_prefix, safety_tokens,
  context_of, build_options_for_context, repair_content, int_ptr,
}

-- The service, its request, and what the calls of an inference return: `complete n` is the n-th call of the
-- client, and `cached` is `none` if there is no answer or the query fails.
pub record Service (R V : Type 0) : Type 0 where
  pub config : LlmConfig
  pub enabled : Bool
  pub base_options : BuildOptions
  pub estimate_tokens : String → ℤ
  pub system_prompt : String
  pub build : BuildOptions → Tried String (String × List String)
  pub use_cache : Bool
  pub has_store : Bool
  pub cache_key : (model system payload : String) → String
  pub cached : String → Option String
  pub complete : ℕ → List Message → Tried ClientError Completion
  pub parse_response : String → Tried String R
  pub validate : R → Tried (List String) V
  pub multilingual_problem : V → Option String

-- `Result`; the zero record of a result is never returned.
pub record Result (V : Type 0) : Type 0 where
  pub validated : Option V
  pub trace : InferenceRecord V
  pub payload_json : String
  pub trims : List String

-- What Analyze returns, with the records that it stored and the prompts that it sent.
pub record Analyzed (V : Type 0) : Type 0 where
  pub result : Option (Result V)
  pub error : Option Failure
  pub stored : List (InferenceRecord V)
  pub sent : List (List Message)

module _ {R V : Type 0} (s : Service R V) where
  unfoldable pub parse_and_validate : String → Tried (List String) V
  parse_and_validate raw = elim (s.parse_response raw) [
    | failed e ↦ failed (e ∷ [])
    | got resp ↦ elim (s.validate resp) [
      | failed problems ↦ failed problems
      | got v ↦ elim (s.multilingual_problem v) [
        | none ↦ got v
        | some problem ↦ failed (problem ∷ [])
      ]
    ]
  ]

  -- A failure before there is a record.
  unfoldable pub unsent : Failure → Analyzed V
  unsent e = record { result = none; error = some e; stored = []; sent = [] }

  -- `persist`; an error of the store is only logged.
  unfoldable pub persist : InferenceRecord V → List (InferenceRecord V)
  persist r = if s.has_store then r ∷ [] else []

  -- The estimated size of a request with one user message.
  unfoldable pub needed : (content : String) → ℤ
  unfolding safety_tokens context_of
  needed content =
      s.estimate_tokens s.system_prompt
      +ℤ s.estimate_tokens content
      +ℤ s.config.max_tokens
      +ℤ safety_tokens (context_of s.config)

  unfoldable pub messages : (content : String) → List Message
  messages content =
      record { role = role_system; content = s.system_prompt }
      ∷ record { role = role_user; content = content }
      ∷ []

  unfoldable pub new_record : InferenceRecord V
  new_record = record {
    model_name = s.config.model;
    cache_key = none;
    raw_output = "";
    parsed_output = none;
    status = none;
    error_message = none;
    repair_attempted = false;
    latency_ms = 0;
    prompt_tokens = none;
    completion_tokens = none;
  }

  module _ (payload_json : String) (trims : List String) where
    -- The end of an inference with an error, and with an answer.
    unfoldable pub refuse : (sent : List (List Message)) → Failure → InferenceRecord V → Analyzed V
    unfolding persist
    refuse sent e r = record {
      result =
          some (record { validated = none; trace = r; payload_json = payload_json; trims = trims });
      error = some e;
      stored = persist r;
      sent = sent;
    }

    unfoldable pub accept : (sent : List (List Message)) → V → InferenceRecord V → Analyzed V
    unfolding persist
    accept sent v r = record {
      result =
          some
            (record { validated = some v; trace = r; payload_json = payload_json; trims = trims });
      error = none;
      stored = persist r;
      sent = sent;
    }

    -- The answer to the repair.
    unfoldable pub after_repair :
        (sent : List (List Message)) → InferenceRecord V → Tried (List String) V → Analyzed V
    unfolding refuse accept
    after_repair sent r (failed problems) = refuse sent (validation_failed problems) (record r {
      status = some inference_invalid;
      error_message = some (validation_failed problems);
    })
    after_repair sent r (got v) =
        accept sent v (record r { status = some inference_repaired; parsed_output = some v })

    unfoldable pub repaired :
        (sent : List (List Message))
        → (problems : List String) → InferenceRecord V
        → Tried ClientError Completion
        → Analyzed V
    unfolding refuse after_repair status_for
    repaired sent problems r (failed e) =
        refuse sent (call_failed e) (record r {
          status = some (status_for e);
          error_message = some (repair_failed e problems);
        })
    repaired sent problems r (got c) =
        after_repair sent
          (record r { raw_output = c.content; latency_ms = r.latency_ms + c.latency_ms })
          (parse_and_validate c.content)

    -- An answer that is refused.
    unfoldable pub repair :
        (first : List Message)
        → (answer : String) → (problems : List String) → InferenceRecord V
        → Analyzed V
    unfolding refuse repaired needed messages repair_content
    repair first answer problems r =
        let content = repair_content answer problems in
        let size = s.estimate_tokens s.system_prompt +ℤ s.estimate_tokens content in
        let reserve = safety_tokens (context_of s.config) in
        let e = repair_too_large size s.config.max_tokens reserve (context_of s.config) problems in
        let marked = record r { repair_attempted = true } in
        if ltb_ℤ (context_of s.config) (needed content)
        then refuse (first ∷ []) e
            (record marked { status = some inference_invalid; error_message = some e })
        else repaired (first ∷ messages content ∷ []) problems marked
            (s.complete 1 (messages content))

    unfoldable pub judge_answer :
        (first : List Message)
        → (answer : String) → InferenceRecord V
        → Tried (List String) V
        → Analyzed V
    unfolding accept repair
    judge_answer first answer r (failed problems) = repair first answer problems r
    judge_answer first answer r (got v) =
        accept (first ∷ []) v (record r { status = some inference_ok; parsed_output = some v })

    -- The first answer of the client.
    unfoldable pub answered :
        (first : List Message) → InferenceRecord V → Tried ClientError Completion → Analyzed V
    unfolding refuse judge_answer status_for int_ptr
    answered first r (failed e) =
        refuse (first ∷ []) (call_failed e)
          (record r { status = some (status_for e); error_message = some (call_failed e) })
    answered first r (got c) =
        judge_answer first c.content
          (record r {
            raw_output = c.content;
            latency_ms = c.latency_ms;
            prompt_tokens = int_ptr c.prompt_tokens;
            completion_tokens = int_ptr c.completion_tokens;
          })
          (parse_and_validate c.content)

    unfoldable pub ask : InferenceRecord V → Analyzed V
    unfolding answered messages
    ask r =
        let first = messages (append user_snapshot_prefix payload_json) in
        answered first r (s.complete 0 first)

    -- A cached answer that is still valid, or else a question.
    unfoldable pub recall : InferenceRecord V → (raw : String) → Tried (List String) V → Analyzed V
    unfolding ask accept
    recall r raw (failed problems) = ask r
    recall r raw (got v) =
        accept [] v
          (record r { status = some inference_cached; raw_output = raw; parsed_output = some v })

    unfoldable pub look_up : InferenceRecord V → Option String → Analyzed V
    unfolding ask recall
    look_up r none = ask r
    look_up r (some raw) = recall r raw (parse_and_validate raw)

    unfoldable pub infer : Analyzed V
    unfolding new_record refuse look_up
    infer =
        let key = s.cache_key s.config.model s.system_prompt payload_json in
        let keyed = record new_record { cache_key = some key } in
        if s.enabled
        then look_up keyed (if s.use_cache && s.has_store then s.cached key else none)
        else refuse [] err_disabled (record new_record {
          status = some inference_disabled;
          error_message = some err_disabled;
        })

  unfoldable pub with_payload : Tried String (String × List String) → Analyzed V
  unfolding unsent infer needed
  with_payload (failed e) = unsent (build_payload e)
  with_payload (got (payload_json, trims)) =
      let content = append user_snapshot_prefix payload_json in
      let size = s.estimate_tokens s.system_prompt +ℤ s.estimate_tokens content in
      if ltb_ℤ (context_of s.config) (needed content)
      then unsent (
          request_too_large size s.config.max_tokens (safety_tokens (context_of s.config))
            (context_of s.config))
      else infer payload_json trims

  unfoldable pub with_options : Tried Failure BuildOptions → Analyzed V
  unfolding unsent with_payload
  with_options (failed e) = unsent e
  with_options (got options) = with_payload (s.build options)

  unfoldable pub analyze : Analyzed V
  unfolding with_options build_options_for_context
  analyze = with_options (
      build_options_for_context s.base_options s.config (s.estimate_tokens s.system_prompt)
        (s.estimate_tokens user_snapshot_prefix))
