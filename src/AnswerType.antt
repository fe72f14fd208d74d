-- ===== src/AnswerType.antt =====
-- internal/answertype/classifier.go: the kind of answer that a query asks for. A confidence is in
-- hundredths.
mod Patterns
pub mod Consistency
pub mod Upper
use costwise_mcp.Prelude.{
  ℕ, Bool, true, false, not, ◌&&◌, ◌||◌, List, [], ◌∷◌, Bytes, codes, bytes_eq, ltb, leb, ◌==◌,
  if◌then◌else◌, length, to_lower, trim_space, fields, has_prefix, contains,
}
use costwise_mcp.AnswerType.Patterns.{
  yes_no_patterns, location_patterns, caller_patterns, reference_patterns, overview_patterns,
  improvement_patterns, repository_analysis_patterns, architecture_review_patterns,
  feature_suggestion_patterns, explanation_patterns, plan_patterns, agent_patterns,
}

pub data AnswerType : Type 0 where
  yes_no location reference caller overview explanation plan agent improvement repository_analysis
        architecture_review feature_suggestion :
      AnswerType

-- `AnswerType.String`
unfoldable pub type_name : AnswerType → Bytes
type_name yes_no = codes "yes_no"
type_name location = codes "location"
type_name reference = codes "reference"
type_name caller = codes "caller"
type_name overview = codes "overview"
type_name explanation = codes "explanation"
type_name plan = codes "plan"
type_name agent = codes "agent"
type_name improvement = codes "improvement"
type_name repository_analysis = codes "repository_analysis"
type_name architecture_review = codes "architecture_review"
type_name feature_suggestion = codes "feature_suggestion"

-- `AnswerType.MaxTokens`; 0 is no limit
unfoldable pub max_tokens : AnswerType → ℕ
max_tokens yes_no = 10
max_tokens location = 25
max_tokens caller = 50
max_tokens reference = 50
max_tokens overview = 150
max_tokens explanation = 400
max_tokens improvement = 200
max_tokens feature_suggestion = 200
max_tokens architecture_review = 250
max_tokens repository_analysis = 300
max_tokens plan = 500
max_tokens agent = 0

pub record Classification : Type 0 where
  pub type : AnswerType
  pub label : Bytes
  pub confidence : ℕ
  pub reason : Bytes

-- `matchAny`, and the loops with `strings.HasPrefix`
abbrev pub match_any : Bytes → List Bytes → Bool
match_any lower [] = false
match_any lower (p ∷ ps) = has_prefix lower p || match_any lower ps

abbrev pub contains_any_word : Bytes → List Bytes → Bool
contains_any_word lower [] = false
contains_any_word lower (w ∷ ws) = contains lower w || contains_any_word lower ws

abbrev is_one_of : Bytes → List Bytes → Bool
is_one_of s [] = false
is_one_of s (t ∷ ts) = bytes_eq s t || is_one_of s ts

abbrev auxiliaries : List Bytes
auxiliaries =
    codes "does"
    ∷ codes "is"
    ∷ codes "are"
    ∷ codes "can"
    ∷ codes "do"
    ∷ codes "has"
    ∷ codes "have"
    ∷ codes "should"
    ∷ codes "will"
    ∷ codes "did"
    ∷ codes "was"
    ∷ codes "were"
    ∷ []

abbrev first_word : List Bytes → Bytes
first_word [] = []
first_word (w ∷ ws) = w

unfoldable pub is_yes_no_question : Bytes → Bool
is_yes_no_question query =
    let lower = to_lower (trim_space query) in
    if match_any lower yes_no_patterns
    then true
    else if is_one_of (first_word (fields lower)) auxiliaries
    then not (match_any lower (codes "does the" ∷ codes "what does" ∷ codes "how does" ∷ []))
    else false

-- a word of at least two bytes that begins with a capital
abbrev pub is_capital : Bytes → Bool
is_capital [] = false
is_capital (c ∷ w) = leb 2 (length (c ∷ w)) && (leb b'A' c && leb c b'Z')

-- the loop that sets `hasUpper`
abbrev pub has_upper : List Bytes → Bool
has_upper [] = false
has_upper (w ∷ ws) = is_capital w || has_upper ws

abbrev pub is_short_symbol : List Bytes → Bool
is_short_symbol words = leb (length words) 4 && (has_upper words || leb (length words) 2)

abbrev result : AnswerType → Bytes → ℕ → Bytes → Classification
result type label confidence reason = record {
  type = type;
  label = label;
  confidence = confidence;
  reason = reason;
}

abbrev pub by_yes_no : Classification
by_yes_no = result yes_no (codes "yes_no") 85 (codes "yes_no_pattern")

abbrev pub by_location : Classification
by_location = result location (codes "location") 90 (codes "location_pattern")

abbrev pub by_caller : Classification
by_caller = result caller (codes "caller") 90 (codes "caller_pattern")

abbrev pub by_reference : Classification
by_reference = result reference (codes "reference") 90 (codes "reference_pattern")

abbrev pub by_improvement : Classification
by_improvement = result improvement (codes "improvement") 85 (codes "improvement_pattern")

abbrev pub by_repo_analysis : Classification
by_repo_analysis =
    result repository_analysis (codes "repository_analysis") 85 (codes "repo_analysis_pattern")

abbrev pub by_architecture : Classification
by_architecture =
    result architecture_review (codes "architecture_review") 85 (codes "architecture_pattern")

abbrev pub by_feature_suggestion : Classification
by_feature_suggestion =
    result feature_suggestion (codes "feature_suggestion") 80 (codes "feature_suggestion_pattern")

abbrev pub by_overview : Classification
by_overview = result overview (codes "overview") 90 (codes "overview_pattern")

abbrev pub by_plan : Classification
by_plan = result plan (codes "plan") 85 (codes "plan_pattern")

abbrev pub by_explanation : Classification
by_explanation = result explanation (codes "explanation") 70 (codes "explanation_pattern")

abbrev pub by_implementation : Classification
by_implementation = result plan (codes "plan") 70 (codes "implementation_pattern")

abbrev pub by_improvement_keyword : Classification
by_improvement_keyword = result improvement (codes "improvement") 65 (codes "improvement_keyword")

abbrev pub by_question_fallback : Classification
by_question_fallback = result explanation (codes "explanation") 60 (codes "question_fallback")

abbrev pub by_short_symbol_query : Classification
by_short_symbol_query = result location (codes "location") 65 (codes "short_symbol_query")

abbrev pub by_mode_plan : Classification
by_mode_plan = result plan (codes "plan") 100 (codes "mode:plan")

abbrev pub by_mode_agent : Classification
by_mode_agent = result agent (codes "agent") 100 (codes "mode:agent")

abbrev pub by_default : Classification
by_default = result explanation (codes "explanation") 50 (codes "default")

-- `Classify` behind the two modes
unfoldable pub classify_query : Bytes → Classification
unfolding is_yes_no_question
classify_query query =
    let lower = to_lower (trim_space query) in
    let words = fields lower in
    if leb (length words) 6 && is_yes_no_question query
    then by_yes_no
    else if match_any lower location_patterns
    then by_location
    else if match_any lower caller_patterns
    then by_caller
    else if match_any lower reference_patterns
    then by_reference
    else if match_any lower improvement_patterns
    then by_improvement
    else if match_any lower repository_analysis_patterns
    then by_repo_analysis
    else if match_any lower architecture_review_patterns
    then by_architecture
    else if match_any lower feature_suggestion_patterns
    then by_feature_suggestion
    else if match_any lower overview_patterns
    then by_overview
    else if match_any lower plan_patterns
    then by_plan
    else if match_any lower explanation_patterns
    then by_explanation
    else if match_any lower agent_patterns
    then by_implementation
    else if contains_any_word lower
        (codes "improvement" ∷ codes "improvements" ∷ codes "improve" ∷ [])
    then by_improvement_keyword
    else if contains lower (codes "?")
    then by_question_fallback
    else if is_short_symbol words
    then by_short_symbol_query
    else by_default

unfoldable pub classify : Bytes → Bytes → Classification
unfolding classify_query
classify query mode =
    if bytes_eq (to_lower mode) (codes "plan")
    then by_mode_plan
    else if bytes_eq (to_lower mode) (codes "agent")
    then by_mode_agent
    else classify_query query
