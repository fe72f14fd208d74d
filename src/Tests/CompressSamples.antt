-- ===== src/Tests/CompressSamples.antt =====
-- internal/retrieval/compress.go at concrete inputs.
use costwise_mcp.Prelude.{ℕ, ◌≡◌, refl, true, false, List, [], ◌∷◌, ◌++◌, Bytes, codes, arith}
use costwise_mcp.Builder.{Result}
use costwise_mcp.Compress.{compressed, line_of, tail_line, compress_line_list, shorten_path}
use costwise_mcp.Compress.Snippets.{Cleaner, clean_lines}
use costwise_mcp.Compress.Lines.{all_lines, distinct_lines, IsCut, compress_line_list-IsCut}
use costwise_mcp.Compress.Imports.{clean_lines-blocked}

abbrev result : Result
result = record {
  file = codes "/work/internal/cache/cache.go";
  snippet = codes "  NewCache(db)  ";
  line_from = 3;
  line_to = 4;
  score = 1;
}

compress_line_list-IsCut_example :
    (whole : Bytes) × (omitted : ℕ) × IsCut 100
      (line_of (codes "Callers:"))
      (distinct_lines [] (all_lines (result ∷ result ∷ [])))
      whole
      omitted
    × (compress_line_list (result ∷ result ∷ []) 100 (codes "Callers:") (codes "call sites")
        ≡ compressed (whole ++ tail_line omitted (codes "call sites")))
compress_line_list-IsCut_example =
    compress_line_list-IsCut result (result ∷ []) 100 (codes "Callers:") (codes "call sites")

shorten_path_sample :
    shorten_path (codes "/work/internal/cache/cache.go") ≡ codes "internal/cache/cache.go"
unfolding shorten_path
shorten_path_sample = refl

-- imports of TypeScript, each on a line of its own
abbrev imports : List Bytes
imports =
    codes "import { a } from 'a'"
    ∷ codes "import { b } from 'b'"
    ∷ codes "import { c } from 'c'"
    ∷ []

abbrev fresh : Cleaner
fresh = record { cleaned = []; import_count = 0; in_block = false }

abbrev code : List Bytes
code = codes "export const x = a(b)" ∷ codes "return x" ∷ []

imports_open : (clean_lines imports fresh).in_block ≡ true
unfolding clean_lines
imports_open = refl

imports_three : (clean_lines imports fresh).import_count ≡ 3
unfolding clean_lines
imports_three = refl

clean_lines-blocked_example :
    (clean_lines (imports ++ code) fresh).cleaned ≡ (clean_lines imports fresh).cleaned
clean_lines-blocked_example =
    clean_lines-blocked imports code fresh imports_open (omega (arith, imports_three))
      (refl, (refl, tt))
