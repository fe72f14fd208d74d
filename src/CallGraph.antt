-- ===== src/CallGraph.antt =====
-- internal/retrieval/callgraph.go: the answer to a question for callers, from the tables of the
-- index. The groups of a Go map are sorted, and those that the order does not tell apart stand in
-- the order of their first calls. A score is the bits of its `float64`.
pub mod Groups
use costwise_mcp.Prelude.{
  ℕ, zero, suc, ◌+◌, ◌-◌, ◌/◌, ◌*◌, ◌≡◌, refl, ap, ◌∙◌, Bool, true, false, not, ◌&&◌, ◌||◌, List,
  [], ◌∷◌, ◌++◌, map, Option, none, some, ℤ, Bytes, codes, bytes_eq, decimal, ltb, leb, ◌==◌,
  if◌then◌else◌, length, take, drop, get_elem?, sort_by, sort_by-perm, split, join, fields,
  trim_space, to_lower, has_prefix, arith, Bool-cases,
}
use costwise_mcp.Index.Database.{Symbol, CallEdge, Tables}
use costwise_mcp.Index.Searches.{
  SymbolMatch, bytes_less, search, search_call_edges, search_call_edges_like,
}
use costwise_mcp.Classifier.Scores.{Floats}
use costwise_mcp.Classifier.Words.{any, is_upper, first_is}
use costwise_mcp.Builder.{Result}

pub record CallerInfo : Type 0 where
  pub caller : Bytes
  pub file : Bytes
  pub line : ℕ
  pub context : Bytes

pub record CallerGroup : Type 0 where
  pub file : Bytes
  pub caller : Bytes
  pub calls : List CallerInfo

-- `strings.TrimRight` and `strings.Trim` with a set of bytes
abbrev trim_end : Bytes → Bytes → Bytes
trim_end cut [] = []
trim_end cut (c ∷ s) = elim (trim_end cut s) [
  | [] ↦ if any (◌==◌ c) cut then [] else c ∷ []
  | d ∷ r ↦ c ∷ d ∷ r
]

abbrev trim_start : Bytes → Bytes → Bytes
trim_start cut [] = []
trim_start cut (c ∷ s) = let rest = trim_start cut s in if any (◌==◌ c) cut then rest else c ∷ s

-- the loop over the prefixes of a question
abbrev behind_prefix : Bytes → List Bytes → Option Bytes
behind_prefix query [] = none
behind_prefix query (p ∷ ps) =
    let rest = behind_prefix query ps in
    let candidate = trim_end (codes "?.!") (trim_space (drop (length p) query)) in
    if has_prefix (to_lower query) p && ltb 0 (length (fields candidate))
    then some candidate
    else rest

abbrev first_capital : List Bytes → Option Bytes
first_capital [] = none
first_capital (w ∷ ws) =
    let rest = first_capital ws in
    let trimmed = trim_end (codes ".,!?;:'\"()") (trim_start (codes ".,!?;:'\"()") w) in
    if leb 2 (length trimmed) && first_is is_upper trimmed then some trimmed else rest

abbrev last_of : List Bytes → Bytes
last_of [] = []
last_of (w ∷ []) = w
last_of (w ∷ v ∷ ws) = last_of (v ∷ ws)

-- `extractCallSymbol`
unfoldable pub extract_call_symbol : Bytes → Bytes
extract_call_symbol text =
    let query = trim_space text in
    let prefixes =
      codes "who calls "
      ∷ codes "find callers of "
      ∷ codes "show callers of "
      ∷ codes "show call sites of "
      ∷ codes "trace "
      ∷ [] in
    elim (behind_prefix query prefixes) [
      | some candidate ↦ candidate
      | none ↦ elim (first_capital (fields query)) [ some w ↦ w | none ↦ last_of (fields query) ]
    ]

abbrev definition_line : SymbolMatch → Bytes
definition_line m =
    let s = m.symbol in
    let signature = if bytes_eq s.signature [] then s.kind ++ (b' ' ∷ s.name) else s.signature in
    let line =
      b'[' ∷ s.kind
      ++ (codes "] "
          ++ (s.name ++ (codes " (" ++ (s.file ++ (b':' ∷ decimal s.start_line ++ b')' ∷ []))))) in
    if bytes_eq signature line then line else line ++ (b'\n' ∷ codes "  " ++ signature)

-- `gatherCalleeDefs`
unfoldable pub gather_callee_defs : List SymbolMatch → Bytes
gather_callee_defs [] = []
gather_callee_defs (m ∷ ms) =
    codes "Definition:" ++ (b'\n' ∷ join (map definition_line (m ∷ ms)) (codes "\n"))

-- `extractCtxLine`, over the content of the file, if it can be read
unfoldable pub extract_ctx_line : Option Bytes → ℕ → Bytes
extract_ctx_line none line = []
extract_ctx_line (some content) zero = []
extract_ctx_line (some content) (suc i) = elim (get_elem? (split content b'\n') i) [
  | none ↦ []
  | some text ↦
      let context = trim_space text in
      if ltb 120 (length context) then take 120 context ++ codes "..." else context
]

abbrev pub of_group : CallEdge → CallerGroup → Bool
of_group e g = bytes_eq g.file e.file && bytes_eq g.caller e.caller_name

abbrev pub group_before : CallerGroup → CallerGroup → Bool
group_before g h =
    bytes_less g.file h.file || (bytes_eq g.file h.file && bytes_less g.caller h.caller)

abbrev with_file : Bytes → List Bytes → List Bytes
with_file f fs = if any (bytes_eq f) fs then fs else f ∷ fs

abbrev call_files : List CallEdge → List Bytes
call_files [] = []
call_files (e ∷ es) = with_file e.file (call_files es)

-- `countCallerFiles`
abbrev pub count_caller_files : List CallEdge → ℕ
count_caller_files es = length (call_files es)

abbrev call_line : CallerInfo → Bytes
call_line c =
    let context = if bytes_eq c.context [] then codes "line " ++ decimal c.line else c.context in
    codes "    " ++ (c.caller ++ (codes " (line " ++ (decimal c.line ++ (codes "):  " ++ context))))

abbrev group_lines : List CallerGroup → List Bytes
group_lines [] = []
group_lines (g ∷ gs) =
    (b'\n' ∷ codes "  " ++ (g.file ++ codes ":")) ∷ map call_line g.calls ++ group_lines gs

module _ (read_file : Bytes → Option Bytes) where
  abbrev pub info_of : CallEdge → CallerInfo
  info_of e = record {
    caller = e.caller_name;
    file = e.file;
    line = e.line;
    context = extract_ctx_line (read_file e.file) e.line;
  }

  -- `groupMap[key] = append(groupMap[key], e)`
  unfoldable pub add_edge : CallEdge → List CallerGroup → List CallerGroup
  unfolding extract_ctx_line
  add_edge e [] = record { file = e.file; caller = e.caller_name; calls = info_of e ∷ [] } ∷ []
  add_edge e (g ∷ gs) =
      let rest = add_edge e gs in
      if of_group e g then record g { calls = g.calls ++ info_of e ∷ [] } ∷ gs else g ∷ rest

  unfoldable pub group_edges : List CallEdge → List CallerGroup → List CallerGroup
  unfolding add_edge
  group_edges [] gs = gs
  group_edges (e ∷ es) gs = group_edges es (add_edge e gs)

  -- `gatherCallerSections`
  unfoldable pub gather_caller_sections : List CallEdge → List CallerGroup
  unfolding group_edges
  gather_caller_sections edges = sort_by group_before (group_edges edges [])

  abbrev summary_line : List CallEdge → List CallerGroup → Bytes
  summary_line edges groups =
      b'\n' ∷ codes "Call sites found ("
      ++ (decimal (length groups)
          ++ (codes " callers, "
              ++ (decimal (length edges)
                  ++ (codes " calls, "
                      ++ (decimal (count_caller_files edges)
                          ++ (codes " files):" ++ b'\n' ∷ []))))))

  abbrev section_lines : List CallEdge → List CallerGroup → List Bytes
  section_lines edges [] = []
  section_lines edges (g ∷ gs) = summary_line edges (g ∷ gs) ∷ group_lines (g ∷ gs)

  abbrev defined : Bytes → List Bytes
  defined [] = []
  defined (c ∷ s) = (c ∷ s) ∷ []

  module _ (fl : Floats) where
    -- the confidence of the answer
    abbrev pub call_confidence : ℕ → ℕ
    call_confidence zero = fl.literal 0
    call_confidence (suc n) =
        let calls = if ltb 10 (suc n) then 10 else suc n in
        let c =
          fl.add (fl.literal 35)
            (fl.divide (fl.multiply (fl.literal 25) (fl.of_int calls)) (fl.literal 1000)) in
        if ltb (fl.literal 60) c then fl.literal 60 else c

    abbrev answer_for : Bytes → List CallEdge → List SymbolMatch → List Result
    answer_for name [] [] = []
    answer_for name edges matches =
        record {
          file = codes "callgraph:" ++ name;
          score = call_confidence (length edges);
          snippet =
              join
                (defined (gather_callee_defs matches)
                  ++ section_lines edges (gather_caller_sections edges))
                (codes "\n");
          line_from = 0;
          line_to = 0;
        }
        ∷ []

    -- `Retrieve` without its metrics
    unfoldable pub retrieve_callers : Bytes → Tables → List Result
    unfolding extract_call_symbol gather_callee_defs gather_caller_sections search search_call_edges
        search_call_edges_like
    retrieve_callers query t =
        let extracted = extract_call_symbol query in
        let name = if bytes_eq extracted [] then query else extracted in
        let edges : List CallEdge = elim (search_call_edges name t) [
          | [] ↦ search_call_edges_like name t
          | e ∷ es ↦ e ∷ es
        ] in
        answer_for name edges (search fl name (ℤ.pos 5) t)
