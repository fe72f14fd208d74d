-- ===== src/Pipeline.antt =====
-- internal/retrieval/pipeline.go: the quality gate over the results of a query, the limits that
-- its kind sets, and the symbol that it names. A score is a number of millionths.
pub mod Gate
pub mod Symbols
use costwise_mcp.Prelude.{
  ℕ, Bool, true, false, ◌&&◌, ◌||◌, List, [], ◌∷◌, ◌++◌, Option, none, some, Bytes, codes, bytes_eq,
  decimal, ltb, leb, ◌==◌, if◌then◌else◌, length, get_last?, trim_space, fields, contains,
}
use costwise_mcp.AnswerType.{
  AnswerType, yes_no, location, reference, caller, overview, explanation, plan, agent, improvement,
  repository_analysis, architecture_review, feature_suggestion,
}

pub record GateResult : Type 0 where
  pub passed : Bool
  pub reason : Bytes

abbrev pub wants_short : AnswerType → Bool
wants_short yes_no = true
wants_short location = true
wants_short _ = false

abbrev pub needs_evidence : AnswerType → Bool
needs_evidence improvement = true
needs_evidence repository_analysis = true
needs_evidence architecture_review = true
needs_evidence feature_suggestion = true
needs_evidence _ = false

-- `CheckQualityGate` over the scores of the results; `format_score` is the verb %.2f
unfoldable pub check_quality_gate : (ℕ → Bytes) → List ℕ → AnswerType → GateResult
check_quality_gate format_score [] type = record {
  passed = false;
  reason = codes "No repository context found";
}
check_quality_gate format_score (top ∷ scores) type =
    let scored : GateResult = record {
      passed = true;
      reason = codes "top_score=" ++ format_score top;
    } in
    if ltb top 150000
    then record { passed = false; reason = codes "No repository context found" }
    else if wants_short type && leb 300000 top
    then scored
    else if needs_evidence type && ltb (length (top ∷ scores)) 3
    then record {
      passed = false;
      reason =
          codes "Insufficient evidence: need >= 3 results, got " ++ decimal (length (top ∷ scores));
    }
    else record scored { passed = leb 150000 top }

unfoldable pub guess_max_results : AnswerType → ℕ
guess_max_results yes_no = 1
guess_max_results location = 3
guess_max_results caller = 5
guess_max_results reference = 5
guess_max_results overview = 8
guess_max_results explanation = 5
guess_max_results improvement = 10
guess_max_results feature_suggestion = 8
guess_max_results architecture_review = 10
guess_max_results repository_analysis = 15
guess_max_results plan = 10
guess_max_results agent = 10

unfoldable pub guess_context_budget : AnswerType → ℕ
guess_context_budget yes_no = 100
guess_context_budget location = 200
guess_context_budget caller = 500
guess_context_budget reference = 500
guess_context_budget overview = 2000
guess_context_budget explanation = 3000
guess_context_budget improvement = 3000
guess_context_budget feature_suggestion = 2500
guess_context_budget architecture_review = 3000
guess_context_budget repository_analysis = 4000
guess_context_budget plan = 4000
guess_context_budget agent = 4000

abbrev is_upper : ℕ → Bool
is_upper c = leb b'A' c && leb c b'Z'

-- a capital or an underscore, in the rest of a word
abbrev pub has_internal_upper : Bytes → Bool
has_internal_upper [] = false
has_internal_upper (c ∷ w) = (is_upper c || (c == b'_')) || has_internal_upper w

abbrev in_cutset : ℕ → Bytes → Bool
in_cutset c [] = false
in_cutset c (d ∷ ds) = (c == d) || in_cutset c ds

-- `strings.TrimRight`
abbrev pub trim_right_set : Bytes → Bytes → Bytes
trim_right_set [] cutset = []
trim_right_set (c ∷ w) cutset = elim (trim_right_set w cutset) [
  | [] ↦ if in_cutset c cutset then [] else c ∷ []
  | d ∷ r ↦ c ∷ d ∷ r
]

-- the tests of the loop on one trimmed word
abbrev pub is_camel : Bytes → Bool
is_camel [] = false
is_camel (c ∷ w) = leb 2 (length (c ∷ w)) && (is_upper c && has_internal_upper w)

abbrev pub first_symbol : List Bytes → Option Bytes
first_symbol [] = none
first_symbol (w ∷ ws) =
    let trimmed = trim_right_set w (codes "?,.:;!") in
    let rest = first_symbol ws in if is_camel trimmed then some trimmed else rest

unfoldable pub extract_symbol_from_query : Bytes → Bytes
extract_symbol_from_query query =
    let words = fields (trim_space query) in
    elim (first_symbol words) [
      | some symbol ↦ symbol
      | none ↦ elim (get_last? words) [ none ↦ [] | some w ↦ w ]
    ]

unfoldable pub is_likely_symbol : Bytes → Bool
is_likely_symbol s =
    if ltb (length s) 2
    then false
    else if is_camel s
    then true
    else contains s (codes "_") && leb 3 (length s)
