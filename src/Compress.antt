-- ===== src/Compress.antt =====
-- internal/retrieval/compress.go and compress_response.go: the results of a query, cut down to the
-- kind of its answer and a budget of tokens. A budget below 0 acts as 0.
pub mod Snippets
pub mod Lines
pub mod Imports
use costwise_mcp.Prelude.{
  ℕ, zero, suc, ◌+◌, ◌/◌, ◌*◌, Bool, true, false, not, ◌&&◌, ◌||◌, List, [], ◌∷◌, ◌++◌, map, Option,
  none, some, Bytes, codes, bytes_eq, decimal, ltb, leb, ◌==◌, if◌then◌else◌, length, take, drop,
  split, trim_space, has_prefix, unlines,
}
use costwise_mcp.Index.Paths.{base}
use costwise_mcp.AnswerType.{AnswerType}
use costwise_mcp.AnswerType
use costwise_mcp.Builder.{Result}
use costwise_mcp.Compress.Snippets.{clean_snippet}

pub record CompressedContext : Type 0 where
  pub context : Bytes
  pub tokens : ℕ
  pub passed : Bool

abbrev pub nothing : CompressedContext
nothing = record { context = []; tokens = 0; passed = false }

abbrev pub compressed : Bytes → CompressedContext
compressed text = record { context = text; tokens = length text / 4; passed = true }

-- the text from the first occurrence of a pattern on (`strings.Index`)
abbrev first_from : Bytes → Bytes → Option Bytes
first_from pattern [] = none
first_from pattern (c ∷ s) =
    let rest = first_from pattern s in if has_prefix (c ∷ s) pattern then some (c ∷ s) else rest

unfoldable pub shorten_path : Bytes → Bytes
shorten_path path = elim (first_from (codes "/internal/") path) [
  | some rest ↦ drop 1 rest
  | none ↦ elim (first_from (codes "/cmd/") path) [
    | some rest ↦ drop 1 rest
    | none ↦ elim (first_from (codes "/pkg/") path) [ some rest ↦ drop 1 rest | none ↦ base path ]
  ]
]

abbrev pub line_of : Bytes → Bytes
line_of s = s ++ b'\n' ∷ []

abbrev pub indented : Bytes → Bytes
indented s = codes "  " ++ line_of s

abbrev pub indented_lines : List Bytes → Bytes
indented_lines [] = []
indented_lines (l ∷ ls) = indented l ++ indented_lines ls

-- the path of a result, with its first line
abbrev place : Result → Bytes
place r = shorten_path r.file ++ (if ltb 0 r.line_from then b':' ∷ decimal r.line_from else [])

abbrev yes_no_lines : List Result → Bytes
yes_no_lines [] = []
yes_no_lines (r ∷ rs) =
    line_of (place r)
    ++ ((if bytes_eq r.snippet [] then [] else indented_lines (take 3 (split r.snippet b'\n')))
        ++ yes_no_lines rs)

unfoldable pub compress_yes_no : List Result → CompressedContext
unfolding shorten_path
compress_yes_no [] = nothing
compress_yes_no (r ∷ rs) = compressed (yes_no_lines (r ∷ rs))

abbrev location_lines : List Result → Bytes
location_lines [] = []
location_lines (r ∷ rs) =
    line_of (
      place r
      ++ (if ltb 0 r.line_from && ltb r.line_from r.line_to then b'-' ∷ decimal r.line_to else []))
    ++ location_lines rs

unfoldable pub compress_location : List Result → CompressedContext
unfolding shorten_path
compress_location [] = nothing
compress_location (r ∷ rs) = compressed (location_lines (take 3 (r ∷ rs)))

-- the variables of the loop in `compressLineList`
pub record Listing : Type 0 where
  pub text : Bytes
  pub seen : List Bytes
  pub omitted : ℕ
  pub truncated : Bool

abbrev pub is_seen : Bytes → List Bytes → Bool
is_seen s [] = false
is_seen s (t ∷ ts) = bytes_eq t s || is_seen s ts

-- the body of the inner loop
unfoldable pub add_line : ℕ → Bytes → Listing → Listing
add_line budget line st =
    let trimmed = trim_space line in
    let full = st.truncated || leb budget (length st.text / 4) in
    if bytes_eq trimmed [] || is_seen trimmed st.seen
    then st
    else if full
    then record st { seen = trimmed ∷ st.seen; omitted = suc st.omitted; truncated = true }
    else record st { seen = trimmed ∷ st.seen; text = st.text ++ indented trimmed }

unfoldable pub add_all : ℕ → List Bytes → Listing → Listing
unfolding add_line
add_all budget [] st = st
add_all budget (line ∷ lines) st = add_all budget lines (add_line budget line st)

abbrev pub result_lines : Result → List Bytes
result_lines r = if bytes_eq r.snippet [] then shorten_path r.file ∷ [] else split r.snippet b'\n'

unfoldable pub add_results : ℕ → List Result → Listing → Listing
unfolding add_all shorten_path
add_results budget [] st = st
add_results budget (r ∷ rs) st = add_results budget rs (add_all budget (result_lines r) st)

abbrev pub tail_line : ℕ → Bytes → Bytes
tail_line omitted noun =
    if ltb 0 omitted
    then codes "  ... (+"
      ++ (decimal omitted
          ++ (codes " more " ++ (noun ++ (codes " truncated to fit budget)" ++ b'\n' ∷ []))))
    else []

unfoldable pub compress_line_list : List Result → ℕ → Bytes → Bytes → CompressedContext
unfolding add_results
compress_line_list [] budget header noun = nothing
compress_line_list (r ∷ rs) budget header noun =
    let st =
      add_results budget (r ∷ rs)
        (record { text = line_of header; seen = []; omitted = 0; truncated = false }) in
    compressed (st.text ++ tail_line st.omitted noun)

unfoldable pub compress_caller : List Result → ℕ → CompressedContext
unfolding compress_line_list
compress_caller results budget =
    compress_line_list results budget (codes "Callers:") (codes "call sites")

unfoldable pub compress_reference : List Result → ℕ → CompressedContext
unfolding compress_line_list
compress_reference results budget =
    compress_line_list results budget (codes "References:") (codes "references")

-- a snippet of at most so many bytes
abbrev pub capped : ℕ → Bytes → Bytes
capped n snippet = if ltb n (length snippet) then take n snippet ++ codes "..." else snippet

-- the loops of `compressOverview` and `compressDefault`, over one block for each result
abbrev pub add_blocks : (Result → Bytes) → ℕ → List Result → Bytes → Bytes
add_blocks block budget [] text = text
add_blocks block budget (r ∷ rs) text =
    let longer = text ++ block r in
    elim (leb budget (length longer / 4)) [
      | true ↦ longer
      | false ↦ add_blocks block budget rs longer
    ]

abbrev pub overview_block : Result → Bytes
overview_block r =
    codes "File: "
    ++ (line_of (shorten_path r.file)
        ++ (if bytes_eq r.snippet []
            then []
            else capped 500 (clean_snippet r.snippet) ++ b'\n' ∷ b'\n' ∷ []))

unfoldable pub compress_overview : List Result → ℕ → CompressedContext
unfolding shorten_path clean_snippet
compress_overview [] budget = nothing
compress_overview (r ∷ rs) budget =
    compressed (add_blocks overview_block budget (take 8 (r ∷ rs)) [])

abbrev pub default_block : Result → Bytes
default_block r =
    codes "=== "
    ++ (line_of (shorten_path r.file ++ codes " ===")
        ++ (if bytes_eq r.snippet []
            then []
            else capped 1000 (clean_snippet r.snippet) ++ b'\n' ∷ b'\n' ∷ []))

unfoldable pub compress_default : List Result → ℕ → CompressedContext
unfolding shorten_path clean_snippet
compress_default [] budget = nothing
compress_default (r ∷ rs) budget =
    compressed (add_blocks default_block budget (take 10 (r ∷ rs)) [])

-- `CompressForAnswerType`
unfoldable pub compress_for_answer_type : List Result → AnswerType → ℕ → CompressedContext
unfolding compress_yes_no compress_location compress_caller compress_reference compress_overview
    compress_default
compress_for_answer_type results AnswerType.yes_no budget = compress_yes_no results
compress_for_answer_type results AnswerType.location budget = compress_location results
compress_for_answer_type results AnswerType.caller budget = compress_caller results budget
compress_for_answer_type results AnswerType.reference budget = compress_reference results budget
compress_for_answer_type results AnswerType.overview budget = compress_overview results budget
compress_for_answer_type results _ budget = compress_default results budget

-- internal/retrieval/compress_response.go: `NeedsCompression`, where no limit is 0
unfoldable pub needs_compression : ℕ → AnswerType → Bool
unfolding AnswerType.max_tokens
needs_compression output_tokens type =
    let max = AnswerType.max_tokens type in if max == 0 then false else ltb (max * 2) output_tokens

-- `BuildCompressionPrompt`
abbrev pub build_compression_prompt : Bytes → Bytes
build_compression_prompt content =
    codes
      "Rewrite answer in the shortest possible form. Keep only actionable information. Remove explanations. Remove examples."
    ++ (b'\n' ∷ b'\n' ∷ codes "Original:"
        ++ (b'\n' ∷ content ++ (b'\n' ∷ b'\n' ∷ codes "Shortened:")))
