-- ===== src/Llm/Traced.antt =====
-- backend/internal/llm/service.go: what an inference leaves behind, on every path.
use Prim.Native.String.{◌++◌ as append}
use crypto_market_advisor.Base.{
  ◌+◌, String, ◌≡◌, refl, Bool, true, false, Option, none, some, List, [], ◌∷◌, All, if◌then◌else◌,
  arith,
}
use crypto_market_advisor.Base.Int.{ℤ, ◌≤ℤ◌, ltb_ℤ}
use crypto_market_advisor.Llm.Inference.{
  Tried, failed, got, InferenceStatus, ClientError, status_for, Message, Completion, Failure,
  InferenceRecord, BuildOptions, user_snapshot_prefix, context_of, repair_content, int_ptr,
}
use crypto_market_advisor.Llm.Service.{
  Service, Analyzed, parse_and_validate, unsent, needed, messages, refuse, accept, after_repair,
  repaired, repair, judge_answer, answered, ask, recall, look_up, new_record, infer, with_payload,
  with_options, analyze,
}
use crypto_market_advisor.Llm.Ends.{
  is_usable, IsShort, IsFitting, IsEnd, IsTraced, persist-IsStored, parse_and_validate-IsAnswer,
  messages-IsFitting,
}

module _ {R V : Type 0} (s : Service R V) where
  status_for-failure : (e : ClientError) → is_usable (status_for e) ≡ false
  unfolding is_usable status_for
  status_for-failure ClientError.client_disabled = refl
  status_for-failure ClientError.empty_completion = refl
  status_for-failure ClientError.deadline_exceeded = refl
  status_for-failure (ClientError.transport t) = refl

  le_of_not_lt : (a b : ℤ) → ltb_ℤ b a ≡ false → a ≤ℤ b
  le_of_not_lt a b h = ground arith

  -- A test, with what it says in each case.
  if_cases :
      (P : Analyzed V → Type 0) (b : Bool) {x y : Analyzed V}
      → (b ≡ true → P x)
      → (b ≡ false → P y)
      → P (if b then x else y)
  if_cases P true h k = h refl
  if_cases P false h k = k refl

  unsent-IsTraced : (e : Failure) → IsTraced s (unsent s e)
  unfolding IsTraced IsShort unsent
  unsent-IsTraced e = (IsEnd.no_record e refl refl refl refl, tt, tt)

  module _ (payload_json : String) (trims : List String) where
    refuse-IsTraced :
        (sent : List (List Message)) (e : Failure) (r : InferenceRecord V)
        {status : InferenceStatus}
        → All (IsFitting s) sent
        → IsShort sent
        → r.status ≡ some status
        → is_usable status ≡ false
        → r.parsed_output ≡ none
        → IsTraced s (refuse s payload_json trims sent e r)
    unfolding IsTraced refuse
    refuse-IsTraced sent e r fits short h k free = (
      IsEnd.in_error
          (record { validated = none; trace = r; payload_json = payload_json; trims = trims }) e _
          refl refl refl h k free (persist-IsStored s r),
      fits,
      short,
    )

    accept-IsTraced :
        (sent : List (List Message)) (v : V) (r : InferenceRecord V) {status : InferenceStatus}
        → All (IsFitting s) sent
        → IsShort sent
        → r.status ≡ some status
        → is_usable status ≡ true
        → r.parsed_output ≡ some v
        → parse_and_validate s r.raw_output ≡ got v
        → IsTraced s (accept s payload_json trims sent v r)
    unfolding IsTraced accept
    accept-IsTraced sent v r fits short h k holds valid = (
      IsEnd.in_answer
          (record { validated = some v; trace = r; payload_json = payload_json; trims = trims }) v _
          refl refl refl h k holds (parse_and_validate-IsAnswer s r.raw_output v valid)
          (persist-IsStored s r),
      fits,
      short,
    )

    after_repair-IsTraced :
        (a b : List Message) (r : InferenceRecord V) (answer : Tried (List String) V)
        → IsFitting s a
        → IsFitting s b
        → r.parsed_output ≡ none
        → parse_and_validate s r.raw_output ≡ answer
        → IsTraced s (after_repair s payload_json trims (a ∷ b ∷ []) r answer)
    unfolding after_repair is_usable IsShort
    after_repair-IsTraced a b r (failed problems) f g free h =
        refuse-IsTraced (a ∷ b ∷ []) _ _ (f, (g, tt)) tt refl refl free
    after_repair-IsTraced a b r (got v) f g free h =
        accept-IsTraced (a ∷ b ∷ []) v _ (f, (g, tt)) tt refl refl refl h

    repaired-IsTraced :
        (a b : List Message) (problems : List String) (r : InferenceRecord V)
        (reply : Tried ClientError Completion)
        → IsFitting s a
        → IsFitting s b
        → r.parsed_output ≡ none
        → IsTraced s (repaired s payload_json trims (a ∷ b ∷ []) problems r reply)
    unfolding repaired IsShort
    repaired-IsTraced a b problems r (failed e) f g free =
        refuse-IsTraced (a ∷ b ∷ []) _ _ (f, (g, tt)) tt refl (status_for-failure e) free
    repaired-IsTraced a b problems r (got c) f g free =
        after_repair-IsTraced a b
          (record r { raw_output = c.content; latency_ms = r.latency_ms + c.latency_ms })
          (parse_and_validate s c.content) f g free refl

    repair-IsTraced :
        (first : List Message) (answer : String) (problems : List String) (r : InferenceRecord V)
        → IsFitting s first
        → r.parsed_output ≡ none
        → IsTraced s (repair s payload_json trims first answer problems r)
    unfolding repair IsShort is_usable IsFitting
    repair-IsTraced first answer problems r f free =
        let content = repair_content answer problems in
        if_cases (IsTraced s) (ltb_ℤ (context_of s.config) (needed s content))
          (λ large. refuse-IsTraced (first ∷ []) _ _ (f, tt) tt refl refl free)
          (λ small.
            repaired-IsTraced first (messages s content) problems
              (record r { repair_attempted = true }) (s.complete 1 (messages s content)) f
              (messages-IsFitting s content
                (le_of_not_lt (needed s content) (context_of s.config) small))
              free)

    judge_answer-IsTraced :
        (first : List Message) (answer : String) (r : InferenceRecord V)
        (verdict : Tried (List String) V)
        → IsFitting s first
        → r.parsed_output ≡ none
        → parse_and_validate s r.raw_output ≡ verdict
        → IsTraced s (judge_answer s payload_json trims first answer r verdict)
    unfolding judge_answer IsShort is_usable
    judge_answer-IsTraced first answer r (failed problems) f free h =
        repair-IsTraced first answer problems r f free
    judge_answer-IsTraced first answer r (got v) f free h =
        accept-IsTraced (first ∷ []) v _ (f, tt) tt refl refl refl h

    answered-IsTraced :
        (first : List Message) (r : InferenceRecord V) (reply : Tried ClientError Completion)
        → IsFitting s first
        → r.parsed_output ≡ none
        → IsTraced s (answered s payload_json trims first r reply)
    unfolding answered IsShort
    answered-IsTraced first r (failed e) f free =
        refuse-IsTraced (first ∷ []) _ _ (f, tt) tt refl (status_for-failure e) free
    answered-IsTraced first r (got c) f free =
        judge_answer-IsTraced first c.content
          (record r {
            raw_output = c.content;
            latency_ms = c.latency_ms;
            prompt_tokens = int_ptr c.prompt_tokens;
            completion_tokens = int_ptr c.completion_tokens;
          })
          (parse_and_validate s c.content) f free refl

    module _
        (fit : needed s (append user_snapshot_prefix payload_json) ≤ℤ context_of s.config) where
      ask-IsTraced :
          (r : InferenceRecord V) → r.parsed_output ≡ none → IsTraced s (ask s payload_json trims r)
      unfolding ask IsFitting
      ask-IsTraced r free =
          answered-IsTraced _ r _
            (messages-IsFitting s (append user_snapshot_prefix payload_json) fit) free

      recall-IsTraced :
          (r : InferenceRecord V) (raw : String) (verdict : Tried (List String) V)
          → r.parsed_output ≡ none
          → parse_and_validate s raw ≡ verdict
          → IsTraced s (recall s payload_json trims r raw verdict)
      unfolding recall IsShort is_usable
      recall-IsTraced r raw (failed problems) free h = ask-IsTraced r free
      recall-IsTraced r raw (got v) free h = accept-IsTraced [] v _ tt tt refl refl refl h

      look_up-IsTraced :
          (r : InferenceRecord V) (entry : Option String)
          → r.parsed_output ≡ none
          → IsTraced s (look_up s payload_json trims r entry)
      unfolding look_up
      look_up-IsTraced r none free = ask-IsTraced r free
      look_up-IsTraced r (some raw) free =
          recall-IsTraced r raw (parse_and_validate s raw) free refl

      infer-IsTraced : IsTraced s (infer s payload_json trims)
      unfolding infer IsShort is_usable new_record
      infer-IsTraced =
          if_cases (IsTraced s) s.enabled
            (λ on.
              look_up-IsTraced
                (record (new_record s) {
                  cache_key = some (s.cache_key s.config.model s.system_prompt payload_json);
                })
                _ refl)
            (λ off. refuse-IsTraced [] _ _ tt tt refl refl refl)

  with_payload-IsTraced :
      (payload : Tried String (String × List String)) → IsTraced s (with_payload s payload)
  unfolding with_payload
  with_payload-IsTraced (failed e) = unsent-IsTraced _
  with_payload-IsTraced (got (payload_json, trims)) =
      let content = append user_snapshot_prefix payload_json in
      if_cases (IsTraced s) (ltb_ℤ (context_of s.config) (needed s content))
        (λ large. unsent-IsTraced _)
        (λ small.
          infer-IsTraced payload_json trims
            (le_of_not_lt (needed s content) (context_of s.config) small))

  with_options-IsTraced :
      (options : Tried Failure BuildOptions) → IsTraced s (with_options s options)
  unfolding with_options
  with_options-IsTraced (failed e) = unsent-IsTraced e
  with_options-IsTraced (got options) = with_payload-IsTraced (s.build options)

-- Whatever the client, the cache and the validation answer, an inference sends at most two requests, each of
-- which fits into the context with the response and a reserve of at least 512 tokens and a sixteenth of the
-- context, and ends in one of three ways: before there is a record, with nothing sent; with an error, whose
-- record has a status of failure and no parsed answer; or with an answer and no error, whose record has a
-- status of success and holds the answer, and an output of the model that parses, is valid, and is that answer in every
-- language. The record is stored exactly once if there is a store, and never without one.
pub analyze-IsTraced : {R V : Type 0} (s : Service R V) → IsTraced s (analyze s)
unfolding analyze
analyze-IsTraced s = with_options-IsTraced s _
