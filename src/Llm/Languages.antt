-- ===== src/Llm/Languages.antt =====
-- backend/internal/llm/service.go: `multilingualProblem`, the test that an answer is there in every language.
-- `scripts` is scriptCounts, which counts by the tables of Unicode. A problem is kept as what it formats.
use text.Mathlib.Text.{◌==◌ as str_eq}
use crypto_market_advisor.Base.{
  ℕ, ◌+◌, ◌*◌, String, Bool, true, false, not, ◌&&◌, ◌||◌, if◌then◌else◌, Option, none, some, List,
  [], ◌∷◌, ◌++◌, length, ltb, ◌==◌,
}

-- SupportedLanguages
pub data Language : Type 0 where
  en ru zh_cn : Language

abbrev pub supported_languages : List Language
supported_languages = en ∷ ru ∷ zh_cn ∷ []

pub record RecommendationNarrative : Type 0 where
  pub summary : String
  pub leverage_reason : String
  pub take_profit_reasons : List String
  pub stop_loss_reasons : List String
  pub management_reasons : List String
  pub signals_for : List String
  pub signals_against : List String
  pub invalidation : List String

-- Of Validated what the test reads; of the levels and the actions that is their number.
pub record Answer : Type 0 where
  pub take_profit : ℕ
  pub stop_loss : ℕ
  pub management : Option ℕ
  pub translations : Language → Option RecommendationNarrative
  pub news_reasons : Option (Language → String)

pub record Scripts : Type 0 where
  pub latin : ℕ
  pub cyrillic : ℕ
  pub han : ℕ

pub data LanguageProblem : Type 0 where
  translation_required incomplete : Language → LanguageProblem
  take_profit_count stop_loss_count management_count : Language → (items : ℕ) → LanguageProblem
  text_language narrative_language : Language → LanguageProblem
  news_reason : Language → LanguageProblem → LanguageProblem

-- The test of one text, and that of all together.
unfoldable pub wrong_text : Language → Scripts → Bool
wrong_text ru c = (c.cyrillic == 0) && ltb 6 c.latin
wrong_text en c = ltb 0 c.cyrillic || ltb 0 c.han
wrong_text zh_cn c = ((c.han == 0) && ltb 6 c.latin) || ltb 0 c.cyrillic

unfoldable pub wrong_total : Language → Scripts → Bool
wrong_total ru c = (c.cyrillic == 0) || ltb c.cyrillic c.latin
wrong_total en c = (c.latin == 0) || (ltb 0 c.cyrillic || ltb 0 c.han)
wrong_total zh_cn c = (c.han == 0) || (ltb (c.han * 2) c.latin || ltb 0 c.cyrillic)

unfoldable pub texts : RecommendationNarrative → List String
texts n =
    n.summary
    ∷ n.leverage_reason
    ∷ (n.take_profit_reasons
        ++ (n.stop_loss_reasons
            ++ (n.management_reasons ++ (n.signals_for ++ (n.signals_against ++ n.invalidation)))))

abbrev pub no_texts : {A : Type 0} → List A → Bool
no_texts [] = true
no_texts (x ∷ xs) = false

-- The first problem of a loop that returns early.
unfoldable pub first_problem : {A P : Type 0} → (A → Option P) → List A → Option P
first_problem f [] = none
first_problem f (x ∷ xs) =
    let rest = first_problem f xs in elim (f x) [ none ↦ rest | some p ↦ some p ]

unfoldable pub count_of : Option ℕ → ℕ
count_of none = 0
count_of (some n) = n

unfoldable pub only_summary : String → RecommendationNarrative
only_summary reason = record {
  summary = reason;
  leverage_reason = "";
  take_profit_reasons = [];
  stop_loss_reasons = [];
  management_reasons = [];
  signals_for = [];
  signals_against = [];
  invalidation = [];
}

module _ (scripts : String → Scripts) where
  unfoldable pub text_problem : Language → String → Option LanguageProblem
  unfolding wrong_text
  text_problem language text =
      if str_eq text ""
      then none
      else if wrong_text language (scripts text)
      then some (text_language language)
      else none

  unfoldable pub script_total : List String → Scripts
  script_total [] = record { latin = 0; cyrillic = 0; han = 0 }
  script_total (t ∷ ts) =
      let rest = script_total ts in
      let c = scripts t in
      record {
        latin = c.latin + rest.latin;
        cyrillic = c.cyrillic + rest.cyrillic;
        han = c.han + rest.han;
      }

  unfoldable pub narrative_script_problem :
      Language → RecommendationNarrative → Option LanguageProblem
  unfolding first_problem text_problem script_total wrong_total texts
  narrative_script_problem language n = elim (first_problem (text_problem language) (texts n)) [
    | some p ↦ some p
    | none ↦
        if wrong_total language (script_total (texts n))
        then some (narrative_language language)
        else none
  ]

  -- One round of the first loop.
  unfoldable pub narrative_problem :
      Answer → Language → Option RecommendationNarrative → Option LanguageProblem
  unfolding narrative_script_problem count_of
  narrative_problem v language none = some (translation_required language)
  narrative_problem v language (some n) =
      if str_eq n.summary ""
        || (no_texts n.signals_for || (no_texts n.signals_against || no_texts n.invalidation))
      then some (incomplete language)
      else if not (length n.take_profit_reasons == v.take_profit)
      then some (take_profit_count language v.take_profit)
      else if not (length n.stop_loss_reasons == v.stop_loss)
      then some (stop_loss_count language v.stop_loss)
      else if not (length n.management_reasons == count_of v.management)
      then some (management_count language (count_of v.management))
      else narrative_script_problem language n

  -- One round of the second loop.
  unfoldable pub news_problem : (Language → String) → Language → Option LanguageProblem
  unfolding narrative_script_problem only_summary
  news_problem reasons language =
      elim (narrative_script_problem language (only_summary (reasons language))) [
        | none ↦ none
        | some p ↦ some (news_reason language p)
      ]

  unfoldable pub news_problems : Option (Language → String) → Option LanguageProblem
  unfolding first_problem news_problem
  news_problems none = none
  news_problems (some reasons) = first_problem (news_problem reasons) supported_languages

  unfoldable pub multilingual_problem : Answer → Option LanguageProblem
  unfolding first_problem narrative_problem news_problems
  multilingual_problem v =
      elim (first_problem (λ l. narrative_problem v l (v.translations l)) supported_languages) [
        | some p ↦ some p
        | none ↦ news_problems v.news_reasons
      ]
