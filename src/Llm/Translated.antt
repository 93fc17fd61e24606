-- ===== src/Llm/Translated.antt =====
-- backend/internal/llm/service.go: what an answer has in every language if the test finds no problem.
use text.Mathlib.Text.{◌==◌ as str_eq}
use crypto_market_advisor.Base.{
  ℕ, String, ◌≡◌, refl, Bool, true, false, not, ◌||◌, inl, inr, Bool-cases, Option, none, some, ◌∙◌,
  ap, subst, ◌+◌, ◌<◌, List, [], ◌∷◌, All, length, ◌==◌, if◌then◌else◌, arith,
}
use crypto_market_advisor.Llm.Languages.{
  Language, en, ru, zh_cn, supported_languages, RecommendationNarrative, Answer, Scripts,
  wrong_text, wrong_total, no_texts, texts, first_problem, text_problem, script_total,
  narrative_script_problem, count_of, narrative_problem, news_problems, multilingual_problem,
}
use crypto_market_advisor.Llm.Narratives.{
  IsIn, IsMostly, wrong_text-IsIn, wrong_total-IsMostly, count_in, count_all, count_all_lem,
  All-left, IsWritten, IsNarrative,
}

-- Neither the first search nor the second finds anything.
neither :
    {P : Type 0} (o rest : Option P)
    → elim o [ none ↦ rest | some p ↦ some p ] ≡ none
    → (o ≡ none) × (rest ≡ none)
neither none rest h = (refl, h)
neither (some p) rest h = cc

-- A loop that finds nothing has tested every element.
first_problem-none :
    {A P : Type 0} (f : A → Option P) (xs : List A)
    → first_problem f xs ≡ none
    → All (λ x. f x ≡ none) xs
unfolding first_problem
first_problem-none f [] h = tt
first_problem-none f (x ∷ xs) h =
    let (here, later) = neither (f x) (first_problem f xs) h in
    (here, first_problem-none f xs later)

unless_none :
    {P : Type 0} (b : Bool) (p : P) (o : Option P)
    → (if b then some p else o) ≡ none
    → (b ≡ false) × (o ≡ none)
unless_none true p o h = cc
unless_none false p o h = (refl, h)

otherwise :
    {P : Type 0} (b : Bool) (o : Option P) → b ≡ false → (if b then none else o) ≡ none → o ≡ none
otherwise true o e h = cc
otherwise false o e h = h

neither_of : (a b : Bool) → (a || b) ≡ false → (a ≡ false) × (b ≡ false)
neither_of a b h = ground arith

some_texts : (ts : List String) → no_texts ts ≡ false → 0 < length ts
some_texts [] h = cc
some_texts (t ∷ ts) h = omega arith

same_number : (a b : ℕ) → not (a == b) ≡ false → a ≡ b
same_number a b h = ground arith

module _ (scripts : String → Scripts) where
  text_problem-IsWritten :
      (l : Language) (ts : List String)
      → All (λ t. text_problem scripts l t ≡ none) ts
      → All (IsWritten scripts l) ts
  unfolding IsWritten text_problem
  text_problem-IsWritten l [] h = tt
  text_problem-IsWritten l (t ∷ ts) (h, hs) = (
    elim (Bool-cases (str_eq t "")) [ inl e ↦ inl e | inr e ↦ inr (written e h) ],
    text_problem-IsWritten l ts hs,
  )
    where
      written : str_eq t "" ≡ false → text_problem scripts l t ≡ none → IsIn l (scripts t)
      written e k =
          wrong_text-IsIn l (scripts t)
            (unless_none (wrong_text l (scripts t)) _ _ (otherwise (str_eq t "") _ e k)).0

  script_total-counts :
      (ts : List String)
      → script_total scripts ts ≡ record {
        latin = count_in (λ t. (scripts t).latin) ts;
        cyrillic = count_in (λ t. (scripts t).cyrillic) ts;
        han = count_in (λ t. (scripts t).han) ts;
      }
  unfolding script_total count_in
  script_total-counts [] = refl
  script_total-counts (t ∷ ts) =
      ap
        (λ (c : Scripts). record {
          latin = (scripts t).latin + c.latin;
          cyrillic = (scripts t).cyrillic + c.cyrillic;
          han = (scripts t).han + c.han;
        })
        (script_total-counts ts)

  narrative_total :
      (n : RecommendationNarrative)
      → script_total scripts (texts n) ≡ record {
        latin = count_all (λ t. (scripts t).latin) n;
        cyrillic = count_all (λ t. (scripts t).cyrillic) n;
        han = count_all (λ t. (scripts t).han) n;
      }
  narrative_total n =
      script_total-counts (texts n)
      ∙ rw
          (
            count_all_lem (λ t. (scripts t).latin) n,
            count_all_lem (λ t. (scripts t).cyrillic) n,
            count_all_lem (λ t. (scripts t).han) n,
          )
          refl

  script_problem-IsWritten :
      (l : Language) (n : RecommendationNarrative)
      → narrative_script_problem scripts l n ≡ none
      → All (IsWritten scripts l) (texts n)
        × (wrong_total l (script_total scripts (texts n)) ≡ false)
  unfolding narrative_script_problem
  script_problem-IsWritten l n h =
      let (each, all) = neither (first_problem (text_problem scripts l) (texts n)) _ h in
      (
        text_problem-IsWritten l (texts n) (first_problem-none _ (texts n) each),
        (unless_none (wrong_total l (script_total scripts (texts n))) _ _ all).0,
      )

  narrative_problem-IsNarrative :
      (v : Answer) (l : Language) (o : Option RecommendationNarrative)
      → narrative_problem scripts v l o ≡ none
      → (n : RecommendationNarrative) × (o ≡ some n) × IsNarrative scripts v l n
  unfolding narrative_problem texts
  narrative_problem-IsNarrative v l none h = cc
  narrative_problem-IsNarrative v l (some n) h =
      let (complete, h1) = unless_none _ _ _ h in
      let (targets, h2) = unless_none _ _ _ h1 in
      let (stops, h3) = unless_none _ _ _ h2 in
      let (actions, h4) = unless_none _ _ _ h3 in
      (n, refl, finish n complete targets stops actions (script_problem-IsWritten l n h4))
    where
      finish :
          (n : RecommendationNarrative)
          → (str_eq n.summary ""
              || (no_texts n.signals_for
                  || (no_texts n.signals_against || no_texts n.invalidation)))
            ≡ false
          → not (length n.take_profit_reasons == v.take_profit) ≡ false
          → not (length n.stop_loss_reasons == v.stop_loss) ≡ false
          → not (length n.management_reasons == count_of v.management) ≡ false
          → All (IsWritten scripts l) (texts n)
            × (wrong_total l (script_total scripts (texts n)) ≡ false)
          → IsNarrative scripts v l n
      finish n complete targets stops actions ((summary, (leverage, rest)), total) =
          let (h1, r1) = All-left (IsWritten scripts l) n.take_profit_reasons _ rest in
          let (h2, r2) = All-left (IsWritten scripts l) n.stop_loss_reasons _ r1 in
          let (h3, r3) = All-left (IsWritten scripts l) n.management_reasons _ r2 in
          let (h4, r4) = All-left (IsWritten scripts l) n.signals_for _ r3 in
          let (h5, h6) = All-left (IsWritten scripts l) n.signals_against n.invalidation r4 in
          let (k1, c1) = neither_of _ _ complete in
          let (k2, c2) = neither_of _ _ c1 in
          let (k3, k4) = neither_of _ _ c2 in
          record {
            has_summary = k1;
            has_for = some_texts n.signals_for k2;
            has_against = some_texts n.signals_against k3;
            has_invalidation = some_texts n.invalidation k4;
            each_target = same_number _ _ targets;
            each_stop = same_number _ _ stops;
            each_action = same_number _ _ actions;
            summary_written = summary;
            leverage_written = leverage;
            targets_written = h1;
            stops_written = h2;
            actions_written = h3;
            for_written = h4;
            against_written = h5;
            invalidation_written = h6;
            together = subst (IsMostly l) (narrative_total n) (wrong_total-IsMostly l _ total);
          }

-- If `multilingualProblem` finds no problem, the answer has for every supported language a narrative with a
-- summary, signals for and against and conditions that end it, and one reason for every target, stop and
-- action. Each of its texts that is not empty, in every field, and all together are in the language: in English
-- without a Cyrillic or Han letter, in Russian and Chinese with letters of it or at most six Latin ones,
-- and all together with letters of it and without too many Latin ones.
pub multilingual_problem-IsNarrative :
    (scripts : String → Scripts) (v : Answer) (l : Language)
    → multilingual_problem scripts v ≡ none
    → (n : RecommendationNarrative) × (v.translations l ≡ some n) × IsNarrative scripts v l n
unfolding multilingual_problem
multilingual_problem-IsNarrative scripts v l h =
    narrative_problem-IsNarrative scripts v l (v.translations l) (
      at l (
        first_problem-none (λ l. narrative_problem scripts v l (v.translations l))
          supported_languages (neither _ (news_problems scripts v.news_reasons) h).0))
  where
    at :
        (l : Language)
        → All (λ l. narrative_problem scripts v l (v.translations l) ≡ none) supported_languages
        → narrative_problem scripts v l (v.translations l) ≡ none
    at en (e, (r, (z, u))) = e
    at ru (e, (r, (z, u))) = r
    at zh_cn (e, (r, (z, u))) = z
