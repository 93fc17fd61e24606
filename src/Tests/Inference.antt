-- ===== src/Tests/Inference.antt =====
-- An inference whose first answer is refused and whose repair is accepted.
use text.Mathlib.Text.{◌==◌ as str_eq}
use crypto_market_advisor.Base.{
  Option, some, ℕ, zero, suc, String, ◌≡◌, refl, true, false, none, [], ◌∷◌, if◌then◌else◌, length,
}
use crypto_market_advisor.Base.Int.{pos, ◌+ℤ◌, ◌-ℤ◌, quot_ℤ}
use crypto_market_advisor.Llm.Inference.{failed, got, Completion}
use crypto_market_advisor.Llm.Service.{Service, analyze, parse_and_validate}
use crypto_market_advisor.Llm.Languages.{
  Language, en, ru, zh_cn, RecommendationNarrative, Answer, Scripts, multilingual_problem,
}
use crypto_market_advisor.Llm.Narratives.{IsNarrative}
use crypto_market_advisor.Llm.Translated.{multilingual_problem-IsNarrative}
use crypto_market_advisor.Llm.Ends.{IsTraced}
use crypto_market_advisor.Llm.Traced.{analyze-IsTraced}

abbrev completion : String → Completion
completion content = record {
  content = content;
  latency_ms = 20;
  prompt_tokens = pos 900;
  completion_tokens = pos 100;
}

-- The client answers "bad", and then "good"; only "good" is valid.
abbrev service : Service String ℕ
service = record {
  config = record {
    model = "qwen";
    max_tokens = pos 1000;
    context_size = pos 0;
    snapshot_max_tokens = pos 4000;
  };
  enabled = true;
  base_options = record { max_tokens = pos 4200; tail_candles = pos 20; max_similar_cases = pos 5 };
  estimate_tokens = λ text. pos 300;
  system_prompt = "Advise.";
  build = λ options. got ("{}", []);
  use_cache = false;
  has_store = true;
  cache_key = λ model system payload. payload;
  cached = λ key. none;
  complete = λ n messages. got (completion (elim n [ zero ↦ "bad" | suc m ↦ "good" ]));
  parse_response = λ raw. got raw;
  validate = λ resp. if str_eq resp "good" then got 7 else failed ("not good" ∷ []);
  multilingual_problem = λ v. none;
}

analyze-IsTraced_example : IsTraced service (analyze service)
analyze-IsTraced_example = analyze-IsTraced service

-- One record is stored, and the client is asked twice.
stored-run : length (analyze service).stored ≡ 1
unfolding analyze ◌-ℤ◌ quot_ℤ ◌+ℤ◌ parse_and_validate
stored-run = refl

sent-run : length (analyze service).sent ≡ 2
unfolding analyze ◌-ℤ◌ quot_ℤ ◌+ℤ◌ parse_and_validate
sent-run = refl

-- A narrative in one word, and the counts of three words.
abbrev narrative : String → RecommendationNarrative
narrative word = record {
  summary = word;
  leverage_reason = "";
  take_profit_reasons = word ∷ [];
  stop_loss_reasons = [];
  management_reasons = [];
  signals_for = word ∷ [];
  signals_against = word ∷ [];
  invalidation = word ∷ [];
}

abbrev in_three : Language → Option RecommendationNarrative
in_three en = some (narrative "buy")
in_three ru = some (narrative "kupit")
in_three zh_cn = some (narrative "mai")

abbrev scripts : String → Scripts
scripts text =
    if str_eq text "buy"
    then record { latin = 3; cyrillic = 0; han = 0 }
    else if str_eq text "kupit"
    then record { latin = 0; cyrillic = 6; han = 0 }
    else if str_eq text "mai"
    then record { latin = 0; cyrillic = 0; han = 1 }
    else record { latin = 0; cyrillic = 0; han = 0 }

abbrev answer : Answer
answer = record {
  take_profit = 1;
  stop_loss = 0;
  management = none;
  translations = in_three;
  news_reasons = none;
}

no_problem : multilingual_problem scripts answer ≡ none
unfolding multilingual_problem
no_problem = refl

multilingual_problem-IsNarrative_example :
    (n : RecommendationNarrative) × (in_three ru ≡ some n) × IsNarrative scripts answer ru n
multilingual_problem-IsNarrative_example =
    multilingual_problem-IsNarrative scripts answer ru no_problem
