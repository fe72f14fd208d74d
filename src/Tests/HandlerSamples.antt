-- ===== src/Tests/HandlerSamples.antt =====
-- internal/mcpserver/tools.go at concrete inputs.
use costwise_mcp.Prelude.{
  ◌≡◌, refl, true, false, [], ◌∷◌, ◌++◌, none, some, Bytes, codes, split, join, decimal,
}
use costwise_mcp.Sandbox.{validate_repo_path}
use costwise_mcp.Memory.{DiskFile, KnowledgeType-discrete, new_knowledge_memory}
use costwise_mcp.Memory
use costwise_mcp.Handlers.{remember, stash_context, recall, session_brief_tool}
use costwise_mcp.Handlers.Texts.{read_line_range, trim_to_budget}
use costwise_mcp.Handlers.Sessions.{
  RepoState, Host, text, Libraries, Arguments, remember_fact, recall_facts,
}
use costwise_mcp.Handlers.Refusals.{IsRefused, handlers-IsRefused}

abbrev empty_repo : RepoState
empty_repo = record {
  memory = new_knowledge_memory;
  facts = DiskFile.missing;
  stash = record { files = []; idx = [] };
}

abbrev lib : Libraries
lib = record {
  normalize = λ p. split p b'/';
  path_text = λ names. join names (codes "/");
  stat = λ p. some true;
  new_session = λ p. some 1;
  fresh = λ s. empty_repo;
  marshal = λ e. some (codes "{}");
  parse = λ line. none;
  format = λ layout time. layout;
  scan_int = λ s. none;
  quote = λ s. b'"' ∷ s ++ b'"' ∷ [];
  sha256 = λ s. 1 ∷ s;
  stash_json = λ es. some [];
  stash_of_json = λ s. none;
  disk = record { writable = λ name. true; torn = λ name. none; removable = λ name. true };
  broken = λ name. false;
  facts_json = λ now es. some [];
  facts_of_json = λ s. none;
  facts_files = record { dir_ok = true; write_ok = true; torn = none };
  io = record { mkdir_ok = true; open_ok = true; write_ok = true; written = 0 };
  now = 4;
}

abbrev host : Host
host = record {
  server = record { allowed = (codes "work" ∷ []) ∷ []; dynamic = []; sessions = []; starts = [] };
  ledgers = record { files = []; handles = [] };
  repos = [];
}

abbrev arguments : Bytes → Arguments
arguments path =
    (codes "repo_path", path)
    ∷ (codes "key", codes "port")
    ∷ (codes "fact", codes "8080")
    ∷ (codes "content", codes "log")
    ∷ []

outside : validate_repo_path host.server (lib.normalize (codes "etc/x")) ≡ false
unfolding validate_repo_path
outside = refl

handlers-IsRefused_example :
    IsRefused host (remember lib (arguments (codes "etc/x")) host)
    × IsRefused host (stash_context lib (arguments (codes "etc/x")) host)
    × IsRefused host (recall lib (arguments (codes "etc/x")) host)
handlers-IsRefused_example = handlers-IsRefused lib (arguments (codes "etc/x")) host outside

remembered :
    recall_facts lib [] (remember_fact lib (codes "port") (codes "8080") empty_repo).0
    ≡ codes "port: 8080" ∷ []
unfolding recall_facts remember_fact KnowledgeType-discrete Memory.store
remembered = refl

answered :
    (remember lib (arguments (codes "work/a")) host).1
    ≡ text (codes "Remembered \"port\". Use recall(query=\"port\") to retrieve it.")
unfolding remember
answered = refl

-- the ledger of any directory can be read, whatever the sandbox
read_outside :
    session_brief_tool lib (arguments (codes "etc/x")) host
    ≡ text (codes "No session events recorded for this repository yet." ++ b'\n' ∷ [])
unfolding session_brief_tool
read_outside = refl

first_lines :
    trim_to_budget (codes "one line" ∷ codes "another line" ∷ []) 3
    ≡ codes "one line" ++ (b'\n' ∷ codes "... +1 more (raise budget to see them)" ++ b'\n' ∷ [])
unfolding trim_to_budget decimal
first_lines = refl

range :
    read_line_range (some (codes "a" ++ (b'\n' ∷ codes "b" ++ (b'\n' ∷ codes "c")))) 2 9 100
    ≡ some (codes "b" ++ (b'\n' ∷ codes "c"))
unfolding read_line_range
range = refl
