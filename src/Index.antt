-- ===== src/Index.antt =====
-- internal/retrieval/indexer.go and the tables of internal/treesitter/db.go: the incremental index of
-- a repository. The directory tree comes as `filepath.Walk` finds it, with what `os.ReadFile`
-- returns; the parse stages of internal/treesitter are the parameters of a `Parser`, which
-- `NewParser` finds for every language that `DetectLanguage` returns.
pub mod Paths
pub mod Database
pub mod Files
pub mod Stored
pub mod Rerun
pub mod Cleanup
pub mod Tombstones
pub mod Searches
pub mod Matches
use costwise_mcp.Prelude.{
  ℕ, zero, suc, ◌+◌, Bool, true, false, not, ◌&&◌, ◌||◌, List, [], ◌∷◌, ◌++◌, map, Option, none,
  some, Bytes, codes, hex, bytes_eq, bytes_discrete, ◌==◌, if◌then◌else◌, lookup, insert, length,
}
use costwise_mcp.Index.Paths.{is_supported, skip_dir}
use costwise_mcp.Index.Database.{
  Symbol, Reference, CallEdge, Tables, Statement, Outcome, clear_file, store_symbols,
  clear_references, store_references, clear_call_edges, store_call_edges, mark_indexed, exec,
  then_do,
}

pub record IndexConfig : Type 0 where
  pub parse_symbols : Bool
  pub parse_references : Bool
  pub parse_calls : Bool

-- `IndexResult` without its latency
pub record IndexResult : Type 0 where
  pub changed : ℕ
  pub skipped : ℕ
  pub deleted : ℕ
  pub total : ℕ

-- `ParseFile`, `ParseReferences` and `ParseCalls` on a path; `none` is an error
pub record Parser : Type 0 where
  pub symbols : Bytes → Option (List Symbol)
  pub references : Bytes → Option (List Reference)
  pub calls : Bytes → Option (List CallEdge)

-- a regular file: its path, its path from the root, its size and its content, if it can be read
pub record DiskFile : Type 0 where
  pub path : Bytes
  pub rel_path : Bytes
  pub size : ℕ
  pub content : Option Bytes

mutual
  -- `denied` is an entry that the walk reports with an error
  pub data Node : Type 0 where
    file : DiskFile → Node
    folder : Bytes → Nodes → Node
    denied : Node

  pub data Nodes : Type 0 where
    nil : Nodes
    cons : Node → Nodes → Nodes

abbrev is_indexable : DiskFile → Bool
is_indexable f = not (f.size == 0) && is_supported f.path

-- the files that the callback of the walk gets to: behind its tests, in the order of the walk
unfoldable mutual
  pub visited : Node → List DiskFile
  visited (file f) = if is_indexable f then f ∷ [] else []
  visited (folder path nodes) = if skip_dir path then [] else visited_all nodes
  visited denied = []

  pub visited_all : Nodes → List DiskFile
  visited_all nil = []
  visited_all (cons n ns) = visited n ++ visited_all ns

-- `map[string]bool`
abbrev pub seen_in : Bytes → List Bytes → Bool
seen_in p [] = false
seen_in p (q ∷ ps) = let rest = seen_in p ps in if bytes_eq q p then true else rest

abbrev pub Hashes : Type 0
Hashes = List (Bytes × Bytes)

pub record Progress : Type 0 where
  pub tables : Tables
  pub result : IndexResult

-- `sha256` digests a text; `refuses` tells which statements the database refuses.
module _ (sha256 : Bytes → Bytes) (refuses : Statement → Tables → Bool) (parser : Parser)
    (config : IndexConfig) where
  abbrev pub hash_file : Bytes → Bytes
  hash_file content = hex (sha256 content)

  -- the three stages for a new or changed file
  abbrev pub symbols_stage : DiskFile → Tables → Outcome
  symbols_stage f t =
      if config.parse_symbols
      then elim (parser.symbols f.path) [
        | none ↦ (t, true)
        | some found ↦ then_do (exec sha256 refuses (clear_file f.rel_path) t) (λ u.
            elim (map (λ (s : Symbol). record s { file = f.rel_path }) found) [
              | [] ↦ (u, true)
              | s ∷ ss ↦ exec sha256 refuses (store_symbols (s ∷ ss)) u
            ])
      ]
      else (t, true)

  abbrev pub references_stage : DiskFile → Tables → Outcome
  references_stage f t =
      if config.parse_references
      then elim (parser.references f.path) [
        | none ↦ (t, true)
        | some found ↦ elim (map (λ (r : Reference). record r { file = f.rel_path }) found) [
          | [] ↦ (t, true)
          | r ∷ rs ↦
              then_do (exec sha256 refuses (clear_references f.rel_path) t)
                (λ u. exec sha256 refuses (store_references (r ∷ rs)) u)
        ]
      ]
      else (t, true)

  abbrev pub calls_stage : DiskFile → Tables → Outcome
  calls_stage f t =
      if config.parse_calls
      then elim (parser.calls f.path) [
        | none ↦ (t, true)
        | some found ↦
            elim (map (λ (c : CallEdge). record c { file = f.rel_path; caller_file = f.rel_path })
              found) [
                | [] ↦ (t, true)
                | c ∷ cs ↦
                    then_do (exec sha256 refuses (clear_call_edges f.rel_path) t)
                      (λ u. exec sha256 refuses (store_call_edges (c ∷ cs)) u)
              ]
      ]
      else (t, true)

  unfoldable pub parse_and_store : DiskFile → Bytes → Tables → Outcome
  parse_and_store f hash t = then_do (symbols_stage f t) (λ u.
      then_do (references_stage f u) (λ v.
        then_do (calls_stage f v) (λ w. exec sha256 refuses (mark_indexed f.rel_path hash) w)))

  abbrev pub unchanged : Hashes → Bytes → Bytes → Bool
  unchanged existing rel hash = elim (lookup bytes_discrete rel existing) [
    | none ↦ false
    | some old ↦ bytes_eq old hash
  ]

  -- the callback on one file behind the first tests; false is an error, which ends the walk
  unfoldable pub index_file : Hashes → DiskFile → Progress → Progress × Bool
  index_file existing f p =
      let counted = record p.result { total = suc p.result.total } in
      elim f.content [
        | none ↦ (record p { result = counted }, true)
        | some content ↦
            let hash = hash_file content in
            if unchanged existing f.rel_path hash
            then (record p { result = record counted { skipped = suc counted.skipped } }, true)
            else let (t, ok) = parse_and_store f hash p.tables in
              if ok
              then (
                record { tables = t; result = record counted { changed = suc counted.changed } },
                true,
              )
              else (record { tables = t; result = counted }, false)
      ]

  unfoldable pub index_files : Hashes → List DiskFile → Progress → Progress × Bool
  index_files existing [] p = (p, true)
  index_files existing (f ∷ fs) p =
      let (q, ok) = index_file existing f p in
      elim ok [ true ↦ index_files existing fs q | false ↦ (q, false) ]

  -- the rows of one file that is gone, and its mark
  unfoldable pub clear_gone : Bytes → Tables → Outcome
  clear_gone path t = then_do (exec sha256 refuses (clear_file path) t) (λ u.
      then_do (exec sha256 refuses (clear_references path) u) (λ v.
        then_do (exec sha256 refuses (clear_call_edges path) v)
          (λ w. exec sha256 refuses (mark_indexed path []) w)))

  -- the loop over the files that were indexed before
  unfoldable pub clean_up : Hashes → List Bytes → Progress → Progress × Bool
  clean_up [] seen p = (p, true)
  clean_up ((path, hash) ∷ existing) seen p = elim (seen_in path seen) [
    | true ↦ clean_up existing seen p
    | false ↦
        let (t, ok) = clear_gone path p.tables in
        elim ok [
          | true ↦
              clean_up existing seen
                (record { tables = t; result = record p.result { deleted = suc p.result.deleted } })
          | false ↦ (record p { tables = t }, false)
        ]
  ]

  -- `Index`: `loaded` is false when the stored hashes cannot be read
  unfoldable pub index : Bool → Node → Tables → Progress × Bool
  index loaded root t =
      let existing = if loaded then t.files else [] in
      let files = visited root in
      let start : Progress = record {
        tables = t;
        result = record { changed = 0; skipped = 0; deleted = 0; total = 0 };
      } in
      let (p, ok) = index_files existing files start in
      elim ok [
        | true ↦ clean_up existing (map (λ (f : DiskFile). f.rel_path) files) p
        | false ↦ (p, false)
      ]
