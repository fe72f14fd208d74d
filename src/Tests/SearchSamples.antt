-- ===== src/Tests/SearchSamples.antt =====
-- internal/treesitter/db.go at concrete inputs.
use costwise_mcp.Prelude.{
  ℕ, ◌+◌, ◌≡◌, refl, ℤ, true, [], ◌∷◌, Bytes, codes, arith, map, sort_by, IsTop,
}
use costwise_mcp.Index.Database.{Symbol, Tables}
use costwise_mcp.Index.Searches.{like, partial_pattern, all_symbols, search_rows, split_camel}
use costwise_mcp.Index.Matches.{IsPlain, closer, holds, search_rows-IsTop}

abbrev function : Bytes → ℕ → Symbol
function name line = record {
  name = name;
  kind = codes "function";
  language = codes "go";
  file = codes "a.go";
  start_line = line;
  end_line = line + 3;
  signature = codes "func";
  content = [];
}

abbrev tables : Tables
tables = record {
  symbols =
      (codes "1", function (codes "newCache") 9)
      ∷ (codes "2", function (codes "New") 4)
      ∷ (codes "3", function (codes "Old") 2)
      ∷ [];
  references = [];
  call_edges = [];
  files = [];
}

new-IsPlain : IsPlain (codes "new")
new-IsPlain = (
  (λ h. omega arith),
  (λ h. omega arith),
  ((λ h. omega arith), (λ h. omega arith), ((λ h. omega arith), (λ h. omega arith), tt)),
)

search_rows-IsTop_example :
    IsTop
      (closer (codes "new"))
      (holds (codes "new"))
      1
      (all_symbols tables)
      (search_rows (codes "new") (ℤ.pos 1) tables)
search_rows-IsTop_example = search_rows-IsTop (codes "new") (ℤ.pos 1) tables new-IsPlain

searched :
    map (λ (s : Symbol). s.name) (search_rows (codes "new") (ℤ.pos 0) tables)
    ≡ codes "New" ∷ codes "newCache" ∷ []
unfolding search_rows sort_by
searched = refl

-- an underscore in a name stands for any byte
wildcard : like (partial_pattern (codes "read_file")) (codes "readXfile") ≡ true
wildcard = refl

parts :
    split_camel (codes "readHTTPFile")
    ≡ codes "read" ∷ codes "H" ∷ codes "T" ∷ codes "T" ∷ codes "P" ∷ codes "File" ∷ []
parts = refl
