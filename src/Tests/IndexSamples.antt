-- ===== src/Tests/IndexSamples.antt =====
-- internal/retrieval/indexer.go at concrete inputs.
use costwise_mcp.Prelude.{
  ◌+◌, ◌≡◌, ◌≢◌, refl, ap, bytes_eq, bytes_eq_self, Bool, true, false, [], ◌∷◌, ◌++◌, none, some,
  Bytes, codes, length,
}
use costwise_mcp.Index.{
  IndexConfig, IndexResult, Parser, DiskFile, Node, Nodes, file, folder, cons, nil, visited,
  Progress, index_files, clean_up,
}
use costwise_mcp.Index.Database.{Symbol, Tables, Statement}
use costwise_mcp.Index.Rerun.{index_files-index_files}
use costwise_mcp.Index.Tombstones.{clean_up-clean_up}
use costwise_mcp.Index.Cleanup.{missing, without_all, clean_up-without_all}

abbrev digest : Bytes → Bytes
digest s = 1 ∷ s

abbrev never : Statement → Tables → Bool
never s t = false

abbrev config : IndexConfig
config = record { parse_symbols = true; parse_references = true; parse_calls = true }

abbrev main_symbol : Symbol
main_symbol = record {
  name = codes "main";
  kind = codes "function";
  language = codes "go";
  file = [];
  start_line = 3;
  end_line = 5;
  signature = codes "func main()";
  content = [];
}

abbrev parser : Parser
parser = record {
  symbols = λ path. some (main_symbol ∷ []);
  references = λ path. none;
  calls = λ path. some [];
}

abbrev source_file : Bytes → Bytes → DiskFile
source_file rel content = record {
  path = codes "/r/" ++ rel;
  rel_path = rel;
  size = length content;
  content = some content;
}

abbrev a_go : DiskFile
a_go = source_file (codes "a.go") (codes "x")

abbrev b_go : DiskFile
b_go = source_file (codes "b.go") (codes "y")

abbrev tables : Tables
tables = record {
  symbols = [];
  references = [];
  call_edges = [];
  files = (codes "a.go", codes "01") ∷ [];
}

abbrev begin : Progress
begin = record {
  tables = tables;
  result = record { changed = 0; skipped = 0; deleted = 0; total = 0 };
}

b_go_apart : codes "b.go" ≢ codes "a.go"
b_go_apart e = cc (bytes_eq_self (codes "b.go"), ap (bytes_eq (codes "b.go")) e)

visited_sample :
    visited (
      folder
        (codes "/r")
        (cons (file a_go) (cons (folder (codes "/r/dist") (cons (file b_go) nil)) nil)))
    ≡ a_go ∷ []
unfolding visited costwise_mcp.Index.Paths.skip_dir costwise_mcp.Index.Paths.is_supported
visited_sample = refl

index_files-index_files_example :
    let (q, ok) = index_files digest never parser config tables.files (a_go ∷ b_go ∷ []) begin in
    let again : Progress = record { tables = q.tables; result = begin.result } in
    let (r, ok') = index_files digest never parser config q.tables.files (a_go ∷ b_go ∷ []) again in
    (ok ≡ true) × (ok' ≡ true) × (r.tables ≡ q.tables) × (r.result.changed ≡ 0)
index_files-index_files_example =
    index_files-index_files digest never (λ s t. refl) parser config (a_go ∷ b_go ∷ []) begin
      begin.result ((b_go_apart, tt), (tt, tt))

clean_up-without_all_example :
    let (q, ok) = clean_up digest never parser config tables.files (codes "b.go" ∷ []) begin in
    (ok ≡ true)
    × (q.tables ≡ without_all (missing tables.files (codes "b.go" ∷ [])) tables)
    × (q.result ≡ record begin.result {
      deleted = begin.result.deleted + length (missing tables.files (codes "b.go" ∷ []));
    })
clean_up-without_all_example =
    clean_up-without_all digest never (λ s t. refl) parser config tables.files (codes "b.go" ∷ [])
      begin

clean_up-clean_up_example :
    let q = (clean_up digest never parser config tables.files (codes "b.go" ∷ []) begin).0 in
    let again : Progress = record { tables = q.tables; result = begin.result } in
    let r = (clean_up digest never parser config q.tables.files (codes "b.go" ∷ []) again).0 in
    (q.result.deleted ≡ begin.result.deleted + length (missing tables.files (codes "b.go" ∷ [])))
    × (r.result.deleted ≡ begin.result.deleted + length (missing tables.files (codes "b.go" ∷ [])))
clean_up-clean_up_example =
    clean_up-clean_up digest never (λ s t. refl) parser config (codes "b.go" ∷ []) begin
      begin.result (refl, tt)
