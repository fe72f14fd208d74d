-- ===== src/Classifier/Scores.antt =====
-- internal/classifier/classifier.go: the scores of a query for each class. A score is never
-- negative; it stands for the bits of its `float64`, so that scores compare as their bits do, and
-- the arithmetic of the machine is a parameter.
use costwise_mcp.Prelude.{
  ℕ, ◌-◌, Bool, ◌&&◌, ◌||◌, List, [], ◌∷◌, ◌++◌, map, Bytes, codes, bytes_eq, decimal, ltb, leb,
  if◌then◌else◌, length, join, contains, to_lower,
}
use costwise_mcp.Classifier.Indicators.{
  symbol_indicators, text_question_words, text_action_words, call_patterns, call_action_words,
  ref_patterns, ref_action_words, arch_indicators, repo_indicators, repo_word_indicators,
  repo_phrase_patterns,
}
use costwise_mcp.Classifier.Words.{
  any, count, clean, is_pascal, is_snake, is_all_caps, is_camel, is_capitalized, has_symbol_pattern,
  contains_phrase,
}

-- the arithmetic of `float64`: the literals, in hundredths, and the operations
pub record Floats : Type 0 where
  pub literal : ℕ → ℕ
  pub of_int : ℕ → ℕ
  pub add : ℕ → ℕ → ℕ
  pub multiply : ℕ → ℕ → ℕ
  pub divide : ℕ → ℕ → ℕ

-- the variables `score` and `reasons`
pub record Tally : Type 0 where
  pub score : ℕ
  pub reasons : List Bytes

abbrev pub none_yet : Tally
none_yet = record { score = 0; reasons = [] }

-- what a function for one class returns
pub record Score : Type 0 where
  pub value : ℕ
  pub reason : Bytes

abbrev pub scored : Tally → Score
scored t = record { value = t.score; reason = join t.reasons (codes ",") }

abbrev has_word : List Bytes → Bytes → Bool
has_word words w = any (bytes_eq w) words

module _ (fl : Floats) where
  -- `score += x; reasons = append(reasons, reason)`
  abbrev pub raise : ℕ → Bytes → Tally → Tally
  raise x reason t = record { score = fl.add t.score x; reasons = t.reasons ++ reason ∷ [] }

  abbrev pub raise_if : Bool → ℕ → Bytes → Tally → Tally
  raise_if test x reason t = if test then raise x reason t else t

  -- a loop that raises the score by each word that passes a test
  abbrev pub raise_each : (Bytes → Bool) → ℕ → (Bytes → Bytes) → List Bytes → Tally → Tally
  raise_each p x reason [] t = t
  raise_each p x reason (w ∷ ws) t = raise_each p x reason ws (raise_if (p w) x (reason w) t)

  -- `scoreCall` and `scoreReference`, which differ in the words
  abbrev by_patterns : List Bytes → List Bytes → Bytes → Bytes → List Bytes → Score
  by_patterns patterns actions reason lower words =
      let t = raise_if (any (contains lower) patterns) (fl.literal 60) reason none_yet in
      let u = raise_each (contains lower) (fl.literal 30) (λ w. w) actions t in
      let symbol = any (λ w. is_capitalized (clean w)) words in
      scored (raise_if (ltb 0 u.score && symbol) (fl.literal 30) (codes "with_symbol") u)

  unfoldable pub score_call : Bytes → List Bytes → Score
  unfolding clean
  score_call = by_patterns call_patterns call_action_words (codes "call_pattern")

  unfoldable pub score_reference : Bytes → List Bytes → Score
  unfolding clean
  score_reference = by_patterns ref_patterns ref_action_words (codes "ref_pattern")

  -- the score for so many words in Pascal case
  abbrev pascal_score : ℕ → ℕ
  pascal_score n =
      let s = fl.add (fl.literal 30) (fl.multiply (fl.literal 15) (fl.of_int (n - 1))) in
      if ltb (fl.literal 70) s then fl.literal 70 else s

  abbrev times : Bytes → ℕ → Bytes
  times name n = name ++ (codes "_x" ++ decimal n)

  -- the loop over the words behind a "where", "find" or "show"
  abbrev raise_lookup : List Bytes → Tally → Tally
  raise_lookup [] t = t
  raise_lookup (w ∷ ws) t =
      let first = to_lower w in
      let asks =
        bytes_eq first (codes "where")
        || (bytes_eq first (codes "find") || bytes_eq first (codes "show")) in
      raise_if (leb 1 (length ws) && (asks && any (λ v. is_capitalized (clean v)) ws))
        (fl.literal 25) (codes "lookup") t

  unfoldable pub score_symbol : Bytes → List Bytes → Score
  unfolding clean
  score_symbol lower words =
      let cleaned = map clean words in
      let pascals = count is_pascal cleaned in
      let snakes = count is_snake cleaned in
      let all_caps = count is_all_caps cleaned in
      let camels = count is_camel cleaned in
      let t =
        raise_if (ltb 0 pascals) (pascal_score pascals) (times (codes "pascal") pascals) none_yet in
      let snake_score =
        fl.add (fl.literal 30) (fl.multiply (fl.literal 10) (fl.of_int (snakes - 1))) in
      let u = raise_if (ltb 0 snakes) snake_score (times (codes "snake") snakes) t in
      let caps_score = fl.multiply (fl.literal 20) (fl.of_int all_caps) in
      let v = raise_if (ltb 0 all_caps) caps_score (times (codes "allcaps") all_caps) u in
      let camel_score = fl.multiply (fl.literal 20) (fl.of_int camels) in
      let w = raise_if (ltb 0 camels) camel_score (times (codes "camel") camels) v in
      let x = raise_each (contains lower) (fl.literal 15) (λ i. i) symbol_indicators w in
      let found = ltb 0 pascals || (ltb 0 all_caps || (ltb 0 camels || ltb 0 snakes)) in
      let y =
        raise_if (leb (length words) 3 && found) (fl.literal 20) (codes "short_with_symbol") x in
      scored (raise_lookup words y)

  unfoldable pub score_text : Bytes → List Bytes → Score
  score_text lower words =
      let t = raise_each (has_word words) (fl.literal 30) (λ w. w) text_question_words none_yet in
      let u = raise_each (contains lower) (fl.literal 15) (λ w. w) text_action_words t in
      scored (raise_if (leb 4 (length words)) (fl.literal 10) (codes "long_query") u)

  unfoldable pub score_repo : Bytes → List Bytes → Score
  unfolding contains_phrase
  score_repo lower words =
      let t = raise_each (contains lower) (fl.literal 30) (λ w. w) repo_indicators none_yet in
      let u = raise_each (contains_phrase lower) (fl.literal 40) (λ w. w) repo_phrase_patterns t in
      let v =
        raise_each (has_word words) (fl.literal 20) (λ w. codes "word_" ++ w) repo_word_indicators
          u in
      let this = contains lower (codes "what is this") || contains lower (codes "what's this") in
      let w = raise_if this (fl.literal 50) (codes "what_is_this") v in
      let short =
        raise_each (has_word words) (fl.literal 20) (λ _. codes "short_repo") repo_indicators w in
      scored (if leb (length words) 2 then short else w)

  abbrev first_of : (Bytes → Bool) → List Bytes → List Bytes
  first_of p [] = []
  first_of p (w ∷ ws) = let rest = first_of p ws in if p w then w ∷ [] else rest

  abbrev no_score : Score
  no_score = record { value = 0; reason = [] }

  -- the rest of `scoreArchitecture`, behind the first word that it found
  abbrev architecture_with : Bytes → Bytes → List Bytes → ℕ → Score
  architecture_with indicator lower words symbol =
      let t : Tally = record { score = 0; reasons = indicator ∷ [] } in
      let explains = contains lower (codes "explain") || contains lower (codes "describe") in
      let u = raise (fl.literal 40) (codes "explain_describe") t in
      let specific =
        if any has_symbol_pattern words
        then raise (fl.literal 50) (codes "with_symbol") u
        else raise (fl.literal 20) (codes "generic_explain") u in
      if explains
      then scored (record specific { score = fl.add specific.score (fl.literal 30) })
      else if ltb 0 symbol
      then scored (raise (fl.literal 40) (codes "arch+symbol") t)
      else scored t

  unfoldable pub score_architecture : Bytes → List Bytes → ℕ → Score
  unfolding has_symbol_pattern
  score_architecture lower words symbol =
      if contains lower (codes "project architecture")
        || contains lower (codes "repository architecture")
      then no_score
      else elim (first_of (contains lower) arch_indicators) [
        | [] ↦ no_score
        | i ∷ _ ↦ architecture_with i lower words symbol
      ]

  unfoldable pub score_flow : Bytes → List Bytes → Score
  unfolding has_symbol_pattern
  score_flow lower words =
      let t =
        raise_if (contains lower (codes "trace") || contains lower (codes "flow of"))
          (fl.literal 50) (codes "trace_flow") none_yet in
      let starts =
        contains lower (codes "startup sequence") || contains lower (codes "startup flow") in
      let u = raise_if starts (fl.literal 60) (codes "startup") t in
      let lives =
        contains lower (codes "lifecycle") || contains lower (codes "request lifecycle") in
      let v = raise_if lives (fl.literal 50) (codes "lifecycle") u in
      let w = raise_if (contains lower (codes "pipeline")) (fl.literal 40) (codes "pipeline") v in
      scored (
        raise_if (ltb 0 w.score && any has_symbol_pattern words) (fl.literal 30)
          (codes "with_symbol") w)
