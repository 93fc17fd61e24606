-- ===== src/Llm/Narratives.antt =====
-- backend/internal/llm/service.go: what it means that a narrative is there in a language, field by field.
use text.Mathlib.Text.{◌==◌ as str_eq}
use crypto_market_advisor.Base.{
  ℕ, String, ◌≡◌, true, false, ◌+◌, ◌*◌, ◌≤◌, ◌<◌, ◌++◌, List, [], ◌∷◌, All, length, arith, ◌⊎◌,
}
use crypto_market_advisor.Llm.Languages.{
  Language, en, ru, zh_cn, RecommendationNarrative, Answer, Scripts, wrong_text, wrong_total, texts,
  count_of,
}

-- The letters that a text of a language may have: an English one only Latin letters, a Russian one some Cyrillic
-- ones or few Latin ones, a Chinese one no Cyrillic ones, and some Han ones or few Latin ones.
unfoldable pub IsIn : Language → Scripts → Type 0
IsIn en c = (c.cyrillic ≡ 0) × (c.han ≡ 0)
IsIn ru c = (0 < c.cyrillic) ⊎ (c.latin ≤ 6)
IsIn zh_cn c = ((0 < c.han) ⊎ (c.latin ≤ 6)) × (c.cyrillic ≡ 0)

-- The same of all texts together: some of the letters of the language, and not more, or for Chinese not more
-- than twice as many, of the Latin ones.
unfoldable pub IsMostly : Language → Scripts → Type 0
IsMostly en c = (0 < c.latin) × (c.cyrillic ≡ 0) × (c.han ≡ 0)
IsMostly ru c = (0 < c.cyrillic) × (c.latin ≤ c.cyrillic)
IsMostly zh_cn c = (0 < c.han) × (c.latin ≤ c.han * 2) × (c.cyrillic ≡ 0)

pub wrong_text-IsIn : (l : Language) (c : Scripts) → wrong_text l c ≡ false → IsIn l c
unfolding wrong_text IsIn
wrong_text-IsIn en c h = ground arith
wrong_text-IsIn ru c h = ground arith
wrong_text-IsIn zh_cn c h = ground arith

pub wrong_total-IsMostly : (l : Language) (c : Scripts) → wrong_total l c ≡ false → IsMostly l c
unfolding wrong_total IsMostly
wrong_total-IsMostly en c h = ground arith
wrong_total-IsMostly ru c h = ground arith
wrong_total-IsMostly zh_cn c h = ground arith

-- The sum of a count over texts.
unfoldable pub count_in : (String → ℕ) → List String → ℕ
count_in g [] = 0
count_in g (t ∷ ts) = g t + count_in g ts

pub count_in-append :
    (g : String → ℕ) (xs ys : List String) → count_in g (xs ++ ys) ≡ count_in g xs + count_in g ys
unfolding count_in
count_in-append g [] ys = omega arith
count_in-append g (x ∷ xs) ys = omega (arith, count_in-append g xs ys)

-- The sum of a count over the fields of a narrative.
unfoldable pub count_all : (String → ℕ) → RecommendationNarrative → ℕ
unfolding count_in
count_all g n =
    g n.summary
    + g n.leverage_reason
    + count_in g n.take_profit_reasons
    + count_in g n.stop_loss_reasons
    + count_in g n.management_reasons
    + count_in g n.signals_for
    + count_in g n.signals_against
    + count_in g n.invalidation

pub count_all_lem :
    (g : String → ℕ) (n : RecommendationNarrative) → count_in g (texts n) ≡ count_all g n
unfolding count_in count_all texts
count_all_lem g n = omega (
  arith,
  count_in-append g n.take_profit_reasons _,
  count_in-append g n.stop_loss_reasons _,
  count_in-append g n.management_reasons _,
  count_in-append g n.signals_for _,
  count_in-append g n.signals_against n.invalidation,
)

pub All-left :
    {A : Type 0} (P : A → Type 0) (xs ys : List A) → All P (xs ++ ys) → All P xs × All P ys
All-left P [] ys h = (tt, h)
All-left P (x ∷ xs) ys (h, hs) = let (k, l) = All-left P xs ys hs in ((h, k), l)

module _ (scripts : String → Scripts) where
  -- A text that is not empty is written in the language.
  unfoldable pub IsWritten : Language → String → Type 0
  unfolding IsIn
  IsWritten l text = (str_eq text "" ≡ true) ⊎ IsIn l (scripts text)

  -- The narrative of a language: it has a summary, signals for and against and conditions that end it, one
  -- reason for every level and every action, and each of its texts, and all together, are written in the language.
  pub record IsNarrative (v : Answer) (l : Language) (n : RecommendationNarrative) : Type 0 where
    pub has_summary : str_eq n.summary "" ≡ false
    pub has_for : 0 < length n.signals_for
    pub has_against : 0 < length n.signals_against
    pub has_invalidation : 0 < length n.invalidation
    pub each_target : length n.take_profit_reasons ≡ v.take_profit
    pub each_stop : length n.stop_loss_reasons ≡ v.stop_loss
    pub each_action : length n.management_reasons ≡ count_of v.management
    pub summary_written : IsWritten l n.summary
    pub leverage_written : IsWritten l n.leverage_reason
    pub targets_written : All (IsWritten l) n.take_profit_reasons
    pub stops_written : All (IsWritten l) n.stop_loss_reasons
    pub actions_written : All (IsWritten l) n.management_reasons
    pub for_written : All (IsWritten l) n.signals_for
    pub against_written : All (IsWritten l) n.signals_against
    pub invalidation_written : All (IsWritten l) n.invalidation
    pub together : IsMostly l (record {
      latin = count_all (λ t. (scripts t).latin) n;
      cyrillic = count_all (λ t. (scripts t).cyrillic) n;
      han = count_all (λ t. (scripts t).han) n;
    })
