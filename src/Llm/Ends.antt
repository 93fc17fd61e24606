-- ===== src/Llm/Ends.antt =====
-- backend/internal/llm/service.go: how an inference ends, described by what it returns, stores and sends.
use crypto_market_advisor.Base.{
  String, ◌≡◌, refl, Bool, true, false, Option, none, some, List, [], ◌∷◌, All, if◌then◌else◌,
  arith, ◌⊎◌, inl, inr, Bool-cases, ap, sym, ◌∙◌,
}
use crypto_market_advisor.Base.Int.{ℤ, pos, ◌≤ℤ◌, ltb_ℤ, ◌+ℤ◌, quot_ℤ}
use crypto_market_advisor.Llm.Inference.{
  Tried, failed, got, InferenceStatus, inference_ok, inference_repaired, inference_cached, Message,
  Failure, InferenceRecord, context_of, safety_tokens, role_system, role_user,
}
use crypto_market_advisor.Llm.Service.{
  Service, Analyzed, Result, persist, parse_and_validate, needed, messages,
}

-- The statuses of a usable answer.
unfoldable pub is_usable : InferenceStatus → Bool
is_usable inference_ok = true
is_usable inference_repaired = true
is_usable inference_cached = true
is_usable _ = false

-- At most two requests.
unfoldable pub IsShort : List (List Message) → Type 0
IsShort [] = Unit
IsShort (a ∷ []) = Unit
IsShort (a ∷ b ∷ []) = Unit
IsShort (a ∷ b ∷ c ∷ rest) = ⊥

least : (q : ℤ) → let r = if ltb_ℤ q (pos 512) then pos 512 else q in (pos 512 ≤ℤ r) × (q ≤ℤ r)
least q = ground arith

safety_tokens-least :
    (n : ℤ) → (pos 512 ≤ℤ safety_tokens n) × (quot_ℤ n (pos 16) ≤ℤ safety_tokens n)
unfolding safety_tokens
safety_tokens-least n = least (quot_ℤ n (pos 16))

module _ {R V : Type 0} (s : Service R V) where
  -- The size of the context: that of the configuration, or 16384 if it has none.
  unfoldable pub IsContext : ℤ → Type 0
  IsContext size =
      ((s.config.context_size ≤ℤ pos 0) × (size ≡ pos 16384))
      ⊎ ((pos 1 ≤ℤ s.config.context_size) × (size ≡ s.config.context_size))

  -- A request of the system prompt and one user message. Both by their estimates, the response, and a
  -- reserve of at least 512 tokens and a sixteenth of the context fit into the context.
  unfoldable pub IsFitting : List Message → Type 0
  unfolding IsContext ◌+ℤ◌ quot_ℤ
  IsFitting m =
      (content : String) × (size : ℤ) × (reserve : ℤ) × (m
        ≡ record { role = role_system; content = s.system_prompt }
          ∷ record { role = role_user; content = content }
          ∷ [])
      × IsContext size
      × (pos 512 ≤ℤ reserve)
      × (quot_ℤ size (pos 16) ≤ℤ reserve)
      × (s.estimate_tokens s.system_prompt
            +ℤ s.estimate_tokens content
            +ℤ s.config.max_tokens
            +ℤ reserve
          ≤ℤ size)

  -- The answer that a text stands for: it parses, its response is valid, and it is there in every language.
  unfoldable pub IsAnswer : String → V → Type 0
  IsAnswer raw v =
      (response : R) × (s.parse_response raw ≡ got response)
      × (s.validate response ≡ got v)
      × (s.multilingual_problem v ≡ none)

  -- One record is stored, if there is a store.
  unfoldable pub IsStored : InferenceRecord V → List (InferenceRecord V) → Type 0
  IsStored r stored =
      ((s.has_store ≡ true) × (stored ≡ r ∷ [])) ⊎ ((s.has_store ≡ false) × (stored ≡ []))

  -- How an inference ends: before there is a record, with nothing sent and stored; with an error, whose record
  -- has a status of failure and no parsed answer; or with an answer and no error, whose record has a status of
  -- success and holds the answer and a text that stands for it.
  pub data IsEnd (a : Analyzed V) : Type 0 where
    no_record :
        (e : Failure) → a.result ≡ none → a.error ≡ some e → a.stored ≡ [] → a.sent ≡ [] → IsEnd a
    in_error :
        (res : Result V) (e : Failure) (status : InferenceStatus)
        → a.result ≡ some res
        → res.validated ≡ none
        → a.error ≡ some e
        → res.trace.status ≡ some status
        → is_usable status ≡ false
        → res.trace.parsed_output ≡ none
        → IsStored res.trace a.stored
        → IsEnd a
    in_answer :
        (res : Result V) (v : V) (status : InferenceStatus)
        → a.result ≡ some res
        → res.validated ≡ some v
        → a.error ≡ none
        → res.trace.status ≡ some status
        → is_usable status ≡ true
        → res.trace.parsed_output ≡ some v
        → IsAnswer res.trace.raw_output v
        → IsStored res.trace a.stored
        → IsEnd a

  unfoldable pub IsTraced : Analyzed V → Type 0
  unfolding IsFitting IsShort IsAnswer IsStored
  IsTraced a = IsEnd a × All IsFitting a.sent × IsShort a.sent

  pub persist-IsStored : (r : InferenceRecord V) → IsStored r (persist s r)
  unfolding persist IsStored
  persist-IsStored r = elim (Bool-cases s.has_store) [
    | inl e ↦ inl (e, ap (λ b. if b then r ∷ [] else []) e)
    | inr e ↦ inr (e, ap (λ b. if b then r ∷ [] else []) e)
  ]

  pub parse_and_validate-IsAnswer :
      (raw : String) (v : V) → parse_and_validate s raw ≡ got v → IsAnswer raw v
  unfolding parse_and_validate IsAnswer
  parse_and_validate-IsAnswer raw v h = parsed (s.parse_response raw) refl h
    where
      checked :
          (response : R) (o : Option String) (w : V)
          → s.parse_response raw ≡ got response
          → s.validate response ≡ got w
          → s.multilingual_problem w ≡ o
          → elim o [ none ↦ got w | some problem ↦ failed (problem ∷ []) ] ≡ got v
          → IsAnswer raw v
      checked response none w h k l e =
          let same : w ≡ v = cc in
          (response, h, k ∙ ap got same, ap s.multilingual_problem (sym same) ∙ l)
      checked response (some problem) w h k l e = cc

      valid :
          (response : R) (x : Tried (List String) V)
          → s.parse_response raw ≡ got response
          → s.validate response ≡ x
          → elim x as (λ _. Tried (List String) V) [
            | failed problems ↦ failed problems
            | got w ↦ elim (s.multilingual_problem w) [
              | none ↦ got w
              | some problem ↦ failed (problem ∷ [])
            ]
          ]
            ≡ got v
          → IsAnswer raw v
      valid response (failed problems) h k e = cc
      valid response (got w) h k e = checked response (s.multilingual_problem w) w h k refl e

      parsed :
          (x : Tried String R)
          → s.parse_response raw ≡ x
          → elim x as (λ _. Tried (List String) V) [
            | failed e ↦ failed (e ∷ [])
            | got response ↦ elim (s.validate response) [
              | failed problems ↦ failed problems
              | got w ↦ elim (s.multilingual_problem w) [
                | none ↦ got w
                | some problem ↦ failed (problem ∷ [])
              ]
            ]
          ]
            ≡ got v
          → IsAnswer raw v
      parsed (failed e) h k = cc
      parsed (got response) h k = valid response (s.validate response) h refl k

  context_of-IsContext : IsContext (context_of s.config)
  unfolding context_of IsContext
  context_of-IsContext = ground arith

  pub messages-IsFitting :
      (content : String) → needed s content ≤ℤ context_of s.config → IsFitting (messages s content)
  unfolding messages IsFitting needed
  messages-IsFitting content h = (
    content,
    context_of s.config,
    safety_tokens (context_of s.config),
    refl,
    context_of-IsContext,
    (safety_tokens-least (context_of s.config)).0,
    (safety_tokens-least (context_of s.config)).1,
    h,
  )
