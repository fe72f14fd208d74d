-- ===== src/Tests/QuerySamples.antt =====
-- internal/answertype/classifier.go, internal/retrieval/pipeline.go and
-- internal/contextbuilder/builder.go at concrete inputs.
use costwise_mcp.Prelude.{
  ◌+◌, ◌*◌, ◌≡◌, ◌≤◌, ◌⊎◌, refl, true, List, [], ◌∷◌, Option, none, Bytes, codes, decimal, leb,
  length, to_lower, trim_space, fields,
}
use costwise_mcp.AnswerType.{type_name, max_tokens, is_short_symbol, classify}
use costwise_mcp.AnswerType.Consistency.{classify-labelled}
use costwise_mcp.AnswerType.Upper.{is_short_symbol-length}
use costwise_mcp.Pipeline.{extract_symbol_from_query}
use costwise_mcp.Pipeline.Symbols.{Names, extract_symbol_from_query-likely}
use costwise_mcp.Builder.{level1, Result, Builder, build, is_level0}
use costwise_mcp.Builder.Budget.{build-bounded}

classify-labelled_example :
    let c = classify (codes "Who calls NewCache") [] in
    (c.label ≡ type_name c.type) × (50 ≤ c.confidence) × (c.confidence ≤ 100)
classify-labelled_example = classify-labelled (codes "Who calls NewCache") []

agent_free : max_tokens (classify (codes "x") (codes "Agent")).type ≡ 0
unfolding classify max_tokens
agent_free = refl

is_short_symbol-length_example :
    is_short_symbol (fields (to_lower (trim_space (codes "HTTPClient retry policy"))))
    ≡ leb (length (fields (to_lower (trim_space (codes "HTTPClient retry policy"))))) 2
is_short_symbol-length_example = is_short_symbol-length (codes "HTTPClient retry policy")

extract_symbol_from_query-likely_example :
    Names
      (fields (trim_space (codes "who calls NewCache?")))
      (extract_symbol_from_query (codes "who calls NewCache?"))
extract_symbol_from_query-likely_example =
    extract_symbol_from_query-likely (codes "who calls NewCache?")

abbrev no_file : Bytes → Option Bytes
no_file path = none

abbrev builder : Builder
builder = record { level = level1; token_budget = 12 }

abbrev results : List Result
results =
    record {
      file = codes "a.go";
      score = 200000;
      snippet = codes "func a";
      line_from = 0;
      line_to = 0;
    }
    ∷ record { file = codes "b.go"; score = 900000; snippet = []; line_from = 1; line_to = 9 }
    ∷ []

build-bounded_example :
    let (text, m) = build no_file decimal builder results in
    (m.files_selected + m.files_dropped ≡ m.total_results)
    × (m.tokens ≤ m.token_budget)
    × ((is_level0 builder.level ≡ true) ⊎ (length text ≤ m.tokens * 4 + m.files_selected * 3))
build-bounded_example = build-bounded no_file decimal builder results
