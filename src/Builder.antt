-- ===== src/Builder.antt =====
-- internal/contextbuilder/builder.go: the context that is built from ranked results within a budget
-- of tokens. A score is a number of millionths, and a line number that is not positive is 0. The
-- metrics in floating point are left out.
pub mod Budget
use costwise_mcp.Prelude.{
  ℕ, zero, suc, ◌+◌, ◌-◌, ◌/◌, Bool, true, false, not, ◌&&◌, ◌||◌, List, [], ◌∷◌, ◌++◌, Option,
  none, some, Bytes, codes, bytes_eq, decimal, ltb, leb, ◌==◌, if◌then◌else◌, length, take, drop,
  split, trim_space, has_prefix, ℤ, or_default,
}
use costwise_mcp.Index.Paths.{base}

pub data Level : Type 0 where
  level0 level1 level2 level3 level4 level5 level6 level7 : Level

-- `Level.String`
unfoldable pub level_name : Level → Bytes
level_name level0 = codes "file-names"
level_name level1 = codes "names+snippets"
level_name level2 = codes "expanded-snippets"
level_name level3 = codes "full-files"
level_name level4 = codes "symbols"
level_name level5 = codes "reference"
level_name level6 = codes "call-graph"
level_name level7 = codes "function-body"

abbrev is_either : Bytes → Bytes → Bytes → Bool
is_either s a b = bytes_eq s a || bytes_eq s b

unfoldable pub parse_level : Bytes → Level
parse_level s =
    if is_either s (codes "0") (codes "file-names")
    then level0
    else if is_either s (codes "1") (codes "names+snippets")
    then level1
    else if is_either s (codes "2") (codes "expanded-snippets")
    then level2
    else if is_either s (codes "3") (codes "full-files")
    then level3
    else if is_either s (codes "4") (codes "symbols")
    then level4
    else if is_either s (codes "5") (codes "reference")
    then level5
    else if is_either s (codes "6") (codes "call-graph")
    then level6
    else if is_either s (codes "7") (codes "function-body")
    then level7
    else level1

abbrev pub is_level0 : Level → Bool
is_level0 level0 = true
is_level0 _ = false

-- `retrieval.RetrievalResult`, as far as it is read here
pub record Result : Type 0 where
  pub file : Bytes
  pub score : ℕ
  pub snippet : Bytes
  pub line_from : ℕ
  pub line_to : ℕ

-- `ContextMetrics` without the floating point
pub record Metrics : Type 0 where
  pub files_selected : ℕ
  pub files_dropped : ℕ
  pub tokens : ℕ
  pub token_budget : ℕ
  pub total_results : ℕ
  pub empty_snippets : ℕ

pub record Builder : Type 0 where
  pub level : Level
  pub token_budget : ℕ

unfoldable pub new_builder : Level → ℤ → Builder
new_builder level budget = record { level = level; token_budget = or_default 3000 budget }

abbrev pub count_tokens : Bytes → ℕ
count_tokens text = length text / 4

abbrev seen_content : List Bytes → Bool
seen_content [] = false
seen_content (line ∷ lines) =
    let trimmed = trim_space line in
    (not (bytes_eq trimmed [])
      && (not (has_prefix trimmed (codes "...")) && not (has_prefix trimmed (codes ">"))))
    || seen_content lines

abbrev pub expand_snippet : Bytes → Bytes
expand_snippet snippet =
    let lines = split snippet b'\n' in
    if ltb (length lines) 3 then snippet else if not (seen_content lines) then snippet else snippet

-- the sort by score, the highest first
unfoldable pub insert_by_score : Result → List Result → List Result
insert_by_score r [] = r ∷ []
insert_by_score r (q ∷ qs) =
    let rest = insert_by_score r qs in if ltb r.score q.score then q ∷ rest else r ∷ q ∷ qs

unfoldable pub by_score : List Result → List Result
unfolding insert_by_score
by_score [] = []
by_score (r ∷ rs) = insert_by_score r (by_score rs)

-- the text from the last occurrence of a pattern on
abbrev last_from : Bytes → Bytes → Option Bytes
last_from pattern [] = none
last_from pattern (c ∷ s) = elim (last_from pattern s) [
  | some t ↦ some t
  | none ↦ if has_prefix (c ∷ s) pattern then some (c ∷ s) else none
]

abbrev short_path : Bytes → Bytes
short_path path = elim (last_from (codes "/internal/") path) [
  | some rest ↦ drop 1 rest
  | none ↦ elim (last_from (codes "/cmd/") path) [ some rest ↦ drop 1 rest | none ↦ path ]
]

abbrev numbered_lines : ℕ → List Bytes → Bytes
numbered_lines n [] = []
numbered_lines n (line ∷ lines) =
    decimal n ++ (codes ": " ++ (line ++ (b'\n' ∷ numbered_lines (suc n) lines)))

-- `os.ReadFile`, and the verb %.2f
module _ (read_file : Bytes → Option Bytes) (format_score : ℕ → Bytes) where
  abbrev load_full_file : Bytes → Bytes
  load_full_file path = elim (read_file path) [ none ↦ [] | some text ↦ text ]

  unfoldable pub extract_function_body : Result → Bytes
  extract_function_body r =
      if r.line_from == 0 || (r.line_to == 0 || ltb r.line_to r.line_from)
      then []
      else elim (read_file r.file) [
        | none ↦ []
        | some text ↦
            let lines = split text b'\n' in
            let capped =
              if ltb 100 (r.line_to - r.line_from + 1) then r.line_from + 100 - 1 else r.line_to in
            let end_line = if ltb (length lines) capped then length lines else capped in
            if ltb (length lines) r.line_from
            then []
            else codes "=== "
              ++ (short_path r.file
                  ++ (codes ":"
                      ++ (decimal r.line_from
                          ++ (codes "-"
                              ++ (decimal end_line
                                  ++ (codes " (confidence: "
                                      ++ (format_score r.score
                                          ++ (codes ") ==="
                                              ++ (b'\n'
                                                  ∷ (numbered_lines r.line_from (
                                                        take (end_line - (r.line_from - 1))
                                                          (drop (r.line_from - 1) lines))
                                                      ++ b'\n' ∷ []))))))))))
      ]

  abbrev line_of : Bytes → Bytes
  line_of text = text ++ b'\n' ∷ []

  abbrev scored_block : Bytes → ℕ → Bytes → Bytes
  scored_block file score text =
      codes "=== "
      ++ (file
          ++ (codes " (confidence: "
              ++ (format_score score ++ (codes ") ===" ++ (b'\n' ∷ (text ++ b'\n' ∷ b'\n' ∷ []))))))

  abbrev file_block : Bytes → Bytes → Bytes
  file_block file text =
      codes "=== " ++ (file ++ (codes " ===" ++ (b'\n' ∷ (text ++ b'\n' ∷ b'\n' ∷ []))))

  abbrev named_or_scored : Result → Bytes
  named_or_scored r =
      if bytes_eq r.snippet [] then line_of r.file else scored_block r.file r.score r.snippet

  abbrev snippet_block : Result → Option Bytes
  snippet_block r = if bytes_eq r.snippet [] then none else some (line_of r.snippet)

  -- the switch of the loop; `none` drops the result
  unfoldable pub block : Level → Result → Option Bytes
  unfolding extract_function_body
  block level0 r = none
  block level1 r = some (named_or_scored r)
  block level2 r =
      if bytes_eq r.snippet []
      then none
      else some (scored_block r.file r.score (expand_snippet r.snippet))
  block level3 r =
      let content = if bytes_eq r.snippet [] then load_full_file r.file else r.snippet in
      if bytes_eq content [] then none else some (file_block r.file content)
  block level4 r = snippet_block r
  block level5 r = snippet_block r
  block level6 r = snippet_block r
  block level7 r =
      let body = extract_function_body r in
      if bytes_eq body [] then some (named_or_scored r) else some body

  abbrev loads_files : Level → Bool
  loads_files level3 = true
  loads_files level4 = true
  loads_files level5 = true
  loads_files level6 = true
  loads_files _ = false

  -- the result with its whole file, where the level wants that; `none` drops it
  abbrev with_snippet : Level → Result → Option Result
  with_snippet level r =
      let content = load_full_file r.file in
      let loaded = if bytes_eq content [] then none else some (record r { snippet = content }) in
      if loads_files level && bytes_eq r.snippet [] then loaded else some r

  -- what the context shows of an included result
  unfoldable pub shown : Level → Result → Bytes
  unfolding extract_function_body
  shown level0 r = line_of (base r.file)
  shown level1 r = named_or_scored r
  shown level2 r = scored_block r.file r.score (expand_snippet r.snippet)
  shown level3 r =
      file_block r.file (if bytes_eq r.snippet [] then load_full_file r.file else r.snippet)
  shown level4 r = if bytes_eq r.snippet [] then [] else line_of r.snippet
  shown level5 r = if bytes_eq r.snippet [] then [] else line_of r.snippet
  shown level6 r = if bytes_eq r.snippet [] then [] else line_of r.snippet
  shown level7 r =
      let body = extract_function_body r in
      if not (bytes_eq body [])
      then body
      else if not (bytes_eq r.snippet [])
      then scored_block r.file r.score r.snippet
      else []

  -- one result of the loop, over the tokens so far: what is included, if anything
  unfoldable pub candidate : Level → Result → Option (Result × ℕ)
  unfolding block
  candidate level0 r = some (r, 1)
  candidate level r = elim (with_snippet level r) [
    | none ↦ none
    | some q ↦ elim (block level q) [ none ↦ none | some text ↦ some (q, count_tokens text) ]
  ]

  -- the loop: the included results, their tokens and the number of dropped ones
  unfoldable pub choose : Level → ℕ → List Result → ℕ → List Result × ℕ × ℕ
  unfolding candidate
  choose level budget [] tokens = ([], tokens, 0)
  choose level budget (r ∷ rs) tokens = elim (candidate level r) [
    | none ↦
        let (included, total, dropped) = choose level budget rs tokens in
        (included, total, suc dropped)
    | some (q, n) ↦
        let (fewer, less, dropped) = choose level budget rs tokens in
        let (included, total, rest) = choose level budget rs (tokens + n) in
        if ltb budget (tokens + n) then (fewer, less, suc dropped) else (q ∷ included, total, rest)
  ]

  abbrev pub show_all : Level → List Result → Bytes
  show_all level [] = []
  show_all level (r ∷ rs) = shown level r ++ show_all level rs

  abbrev empty_count : List Result → ℕ
  empty_count [] = 0
  empty_count (r ∷ rs) =
      let rest = empty_count rs in if bytes_eq r.snippet [] then suc rest else rest

  -- `Build`
  unfoldable pub build : Builder → List Result → Bytes × Metrics
  unfolding by_score choose shown
  build b results =
      let (included, tokens, dropped) = choose b.level b.token_budget (by_score results) 0 in
      (
        show_all b.level included,
        record {
          files_selected = length included;
          files_dropped = dropped;
          tokens = tokens;
          token_budget = b.token_budget;
          total_results = length results;
          empty_snippets = if is_level0 b.level then 0 else empty_count results;
        },
      )
