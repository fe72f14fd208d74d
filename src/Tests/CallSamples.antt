-- ===== src/Tests/CallSamples.antt =====
-- internal/retrieval/callgraph.go at concrete inputs.
use costwise_mcp.Prelude.{
  ℕ, ◌+◌, ◌*◌, ◌/◌, ◌≡◌, refl, [], ◌∷◌, ◌++◌, Option, some, Bytes, codes, decimal, map, sort_by,
}
use costwise_mcp.Index.Database.{Tables, CallEdge}
use costwise_mcp.Classifier.Scores.{Floats}
use costwise_mcp.Builder.{Result}
use costwise_mcp.CallGraph.{extract_call_symbol, retrieve_callers}

abbrev thousandths : Floats
thousandths = record {
  literal = λ n. n * 10;
  of_int = λ n. n * 1000;
  add = λ m n. m + n;
  multiply = λ m n. m * n / 1000;
  divide = λ m n. m * 1000 / n;
}

abbrev read_file : Bytes → Option Bytes
read_file path = some (codes "package a" ++ (b'\n' ∷ codes "\trun()"))

abbrev edge : Bytes → ℕ → CallEdge
edge caller line = record {
  caller_name = caller;
  caller_file = codes "a.go";
  callee_name = codes "run";
  file = codes "a.go";
  line = line;
  language = codes "go";
}

abbrev tables : Tables
tables = record {
  symbols = [];
  references = [];
  call_edges = edge (codes "main") 2 ∷ [];
  files = [];
}

asked : extract_call_symbol (codes " Who calls run? ") ≡ codes "run"
unfolding extract_call_symbol
asked = refl

answered :
    map
      (λ (r : Result). r.snippet)
      (retrieve_callers read_file thousandths (codes "who calls run?") tables)
    ≡ (b'\n' ∷ codes "Call sites found (1 callers, 1 calls, 1 files):"
        ++ (b'\n' ∷ b'\n' ∷ b'\n' ∷ codes "  a.go:" ++ (b'\n' ∷ codes "    main (line 2):  run()")))
      ∷ []
unfolding retrieve_callers sort_by decimal
answered = refl
