-- ===== src/Index/Searches.antt =====
-- internal/treesitter/db.go: the queries on the tables. Rows that ORDER BY does not tell apart stand
-- in the order of the table, and a query that SQLite refuses is a parameter of the caller.
use costwise_mcp.Prelude.{
  ℕ, suc, Bool, true, false, not, ◌&&◌, ◌||◌, List, [], ◌∷◌, ◌++◌, map, Option, none, some, ℤ,
  or_default, Bytes, codes, bytes_eq, ltb, ◌==◌, if◌then◌else◌, length, take, keep_if, sort_by,
  to_lower, lower_byte, contains,
}
use costwise_mcp.Index.Database.{Symbol, Reference, RefType, CallEdge, Tables}
use costwise_mcp.Classifier.Scores.{Floats}

-- a test on some rest of a text
abbrev pub some_rest : (Bytes → Bool) → Bytes → Bool
some_rest p [] = p []
some_rest p (c ∷ s) = p (c ∷ s) || some_rest p s

abbrev pub one_byte : ℕ → (Bytes → Bool) → Bytes → Bool
one_byte b p [] = false
one_byte b p (c ∷ s) = (b == b'_' || lower_byte b == lower_byte c) && p s

-- `text LIKE pattern`
abbrev pub like : Bytes → Bytes → Bool
like [] [] = true
like [] (c ∷ s) = false
like (b ∷ pattern) s = elim (b == b'%') [
  | true ↦ some_rest (like pattern) s
  | false ↦ one_byte b (like pattern) s
]

abbrev pub prefix_pattern : Bytes → Bytes
prefix_pattern query = query ++ b'%' ∷ []

abbrev pub partial_pattern : Bytes → Bytes
partial_pattern query = b'%' ∷ query ++ b'%' ∷ []

-- the order of texts, byte by byte
abbrev pub bytes_less : Bytes → Bytes → Bool
bytes_less [] [] = false
bytes_less [] (b ∷ t) = true
bytes_less (a ∷ s) [] = false
bytes_less (a ∷ s) (b ∷ t) = ltb a b || (a == b && bytes_less s t)

-- ORDER BY a text, a text and a number
abbrev pub less_by : Bytes → Bytes → ℕ → Bytes → Bytes → ℕ → Bool
less_by a b m c d n =
    bytes_less a c || (bytes_eq a c && (bytes_less b d || (bytes_eq b d && ltb m n)))

-- the values of the column `ref_type`
abbrev pub ref_type_text : RefType → Bytes
ref_type_text RefType.definition = codes "definition"
ref_type_text RefType.reference = codes "reference"
ref_type_text RefType.import_of = codes "import"
ref_type_text RefType.export_of = codes "export"

abbrev reference_less : Reference → Reference → Bool
reference_less r q =
    less_by (ref_type_text r.ref_type) r.file r.line (ref_type_text q.ref_type) q.file q.line

unfoldable pub search_references : Bytes → Tables → List Reference
search_references name t =
    sort_by reference_less (keep_if (λ r. bytes_eq r.symbol_name name) t.references)

unfoldable pub search_references_like : Bytes → Tables → List Reference
search_references_like partial t =
    sort_by reference_less
      (keep_if (λ r. like (partial_pattern partial) r.symbol_name) t.references)

unfoldable pub search_call_edges_by_caller : Bytes → Tables → List CallEdge
search_call_edges_by_caller name t =
    sort_by (λ e f. less_by e.callee_name e.file e.line f.callee_name f.file f.line)
      (keep_if (λ e. bytes_eq e.caller_name name) t.call_edges)

abbrev caller_less : CallEdge → CallEdge → Bool
caller_less e f = less_by e.caller_name e.file e.line f.caller_name f.file f.line

unfoldable pub search_call_edges : Bytes → Tables → List CallEdge
search_call_edges name t =
    sort_by caller_less (keep_if (λ e. bytes_eq e.callee_name name) t.call_edges)

unfoldable pub search_call_edges_like : Bytes → Tables → List CallEdge
search_call_edges_like partial t =
    sort_by caller_less (keep_if (λ e. like (partial_pattern partial) e.callee_name) t.call_edges)

abbrev pub get_call_edge_count : Tables → ℕ
get_call_edge_count t = length t.call_edges

abbrev pub get_reference_count : Tables → ℕ
get_reference_count t = length t.references

abbrev pub get_symbol_count : Tables → ℕ
get_symbol_count t = length t.symbols

-- the text before each capital that does not begin a part
abbrev split_camel_from : Bytes → Bytes → List Bytes
split_camel_from [] [] = []
split_camel_from [] (d ∷ cur) = (d ∷ cur) ∷ []
split_camel_from (c ∷ s) [] = split_camel_from s (c ∷ [])
split_camel_from (c ∷ s) (d ∷ cur) = elim (not (ltb c b'A') && not (ltb b'Z' c)) [
  | true ↦ (d ∷ cur) ∷ split_camel_from s (c ∷ [])
  | false ↦ split_camel_from s ((d ∷ cur) ++ c ∷ [])
]

-- `splitCamel`
abbrev pub split_camel : Bytes → List Bytes
split_camel s = split_camel_from s []

abbrev has_part : Bytes → List Bytes → Bool
has_part q [] = false
has_part q (p ∷ ps) = bytes_eq (to_lower p) (to_lower q) || has_part q ps

abbrev match_count : List Bytes → List Bytes → ℕ
match_count [] parts = 0
match_count (q ∷ qs) parts =
    let rest = match_count qs parts in if has_part q parts then suc rest else rest

pub record SymbolMatch : Type 0 where
  pub symbol : Symbol
  pub score : ℕ

-- the columns of a row that the queries read
abbrev pub row_symbol : Symbol → Symbol
row_symbol s = record s { content = [] }

-- what ranks a symbol: its name is the query, begins with it, or neither
abbrev pub name_rank : Bytes → Symbol → ℕ
name_rank query s =
    if like query s.name then 0 else if like (prefix_pattern query) s.name then 1 else 2

abbrev pub is_found : Bytes → Symbol → Bool
is_found query s =
    like query s.name
    || (like (prefix_pattern query) s.name || like (partial_pattern query) s.signature)

abbrev pub found_before : Bytes → Symbol → Symbol → Bool
found_before query r s =
    ltb (name_rank query r) (name_rank query s)
    || (name_rank query r == name_rank query s && ltb r.start_line s.start_line)

abbrev pub all_symbols : Tables → List Symbol
all_symbols t = map (λ (r : Bytes × Symbol). r.1) t.symbols

-- the rows of `Search`
unfoldable pub search_rows : Bytes → ℤ → Tables → List Symbol
search_rows query limit t =
    take (or_default 20 limit)
      (sort_by (found_before query) (keep_if (is_found query) (all_symbols t)))

unfoldable pub get_symbol_range : Bytes → Bytes → Tables → Option (ℕ × ℕ)
get_symbol_range name file t =
    elim (sort_by (λ (r s : Symbol). ltb r.start_line s.start_line)
      (keep_if (λ s. bytes_eq s.name name && bytes_eq s.file file) (all_symbols t))) [
        | [] ↦ none
        | s ∷ _ ↦ some (s.start_line, s.end_line)
      ]

unfoldable pub get_file_symbols : Bytes → Tables → List Symbol
get_file_symbols file t = map row_symbol (
    sort_by (λ r s. ltb r.start_line s.start_line)
      (keep_if (λ s. bytes_eq s.file file) (all_symbols t)))

unfoldable pub get_all_files : Tables → List Bytes
get_all_files t = sort_by bytes_less (map (λ (r : Bytes × Bytes). r.0) t.files)

module _ (fl : Floats) where
  -- `computeSymbolScore`
  abbrev pub compute_symbol_score : Bytes → Symbol → ℕ
  compute_symbol_score query sym =
      let q = to_lower query in
      let name = to_lower sym.name in
      let wanted = split_camel query in
      let ratio =
        fl.divide (fl.of_int (match_count wanted (split_camel sym.name)))
          (fl.of_int (length wanted)) in
      if bytes_eq name q then fl.literal 100 else elim wanted [
        | [] ↦ if contains name q then fl.literal 60 else fl.literal 30
        | w ∷ ws ↦
            if contains name q
            then fl.add (fl.literal 80) (fl.multiply ratio (fl.literal 20))
            else fl.multiply ratio (fl.literal 70)
      ]

  -- `Search`
  unfoldable pub search : Bytes → ℤ → Tables → List SymbolMatch
  unfolding search_rows
  search query limit t =
      map (λ (s : Symbol). record { symbol = row_symbol s; score = compute_symbol_score query s })
        (search_rows query limit t)

  unfoldable pub search_by_kind : Bytes → ℤ → Tables → List SymbolMatch
  search_by_kind kind limit t =
      map (λ (s : Symbol). record { symbol = row_symbol s; score = fl.literal 80 })
        (take (or_default 20 limit) (
          sort_by
            (λ r s.
              bytes_less r.file s.file || (bytes_eq r.file s.file && ltb r.start_line s.start_line))
            (keep_if (λ s. bytes_eq s.kind kind) (all_symbols t))))
