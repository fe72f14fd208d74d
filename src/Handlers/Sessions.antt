-- ===== src/Handlers/Sessions.antt =====
-- internal/mcpserver/session_cache.go and internal/session/repo_session.go: the sessions that the
-- handlers of the tools work on, and the facts that a session keeps.
use costwise_mcp.Prelude.{
  ℕ, ◌==◌, Bool, List, [], ◌∷◌, ◌++◌, Option, ℤ, Bytes, codes, bytes_eq, if◌then◌else◌, length,
  trim_space,
}
use costwise_mcp.Sandbox.{
  Names, Session, Server, SessionError, SessionResult, opened, refused, AllowError,
  get_or_create_repo_session,
}
use costwise_mcp.Ledger.{Ledgers, Answers, append}
use costwise_mcp.Ledger.Events.{Event}
use costwise_mcp.Memory.{
  KnowledgeType, KnowledgeEntry, KnowledgeMemory, DiskFile, FileSystem, SaveError, new_user_note,
  all_entries, is_type, search_type, search_all, save_to_file,
}
use costwise_mcp.Memory
use costwise_mcp.Stash.{Entry, Store, Disk, Found}

-- the parts of a `RepoSession` that the handlers change
pub record RepoState : Type 0 where
  pub memory : KnowledgeMemory
  pub facts : DiskFile
  pub stash : Store

-- the server with what its sessions hold
pub record Host : Type 0 where
  pub server : Server
  pub ledgers : Ledgers
  pub repos : List (Session × RepoState)

pub data ToolError : Type 0 where
  missing_argument invalid_scope fact_too_large content_too_large not_remembered not_stashed :
      ToolError
  not_opened : SessionError → ToolError
  not_allowed : AllowError → ToolError
  no_stash : Found → ToolError

pub data ToolResult : Type 0 where
  failed : ToolError → ToolResult
  text : Bytes → ToolResult

-- what the handlers call outside: paths, new sessions, the JSON of the files, the formats,
-- `fmt.Sscanf` with %d, the outcomes of the file system, and the time
pub record Libraries : Type 0 where
  pub normalize : Bytes → Names
  pub path_text : Names → Bytes
  pub stat : Names → Option Bool
  pub new_session : Names → Option Session
  pub fresh : Session → RepoState
  pub marshal : Event → Option Bytes
  pub parse : Bytes → Option Event
  pub format : Bytes → ℕ → Bytes
  pub scan_int : Bytes → Option ℤ
  pub quote : Bytes → Bytes
  pub sha256 : Bytes → Bytes
  pub stash_json : List Entry → Option Bytes
  pub stash_of_json : Bytes → Option (List Entry)
  pub disk : Disk
  pub broken : Bytes → Bool
  pub facts_json : ℕ → List KnowledgeEntry → Option Bytes
  pub facts_of_json : Bytes → Option (List (Option KnowledgeEntry))
  pub facts_files : FileSystem
  pub io : Answers
  pub now : ℕ

abbrev pub Arguments : Type 0
Arguments = List (Bytes × Bytes)

abbrev pub empty_event : Bytes → Bytes → Event
empty_event kind action = record {
  ts = 0;
  kind = kind;
  action = action;
  summary = [];
  handle = [];
  tokens = 0;
  query = [];
  source = [];
  files = 0;
  trigger = [];
  changed_files = [];
}

module _ (lib : Libraries) where
  -- `ledger.Append`, whose error is only printed
  abbrev pub log_event : Bytes → Event → Ledgers → Ledgers
  log_event path e l = let (after, error) = append lib.marshal lib.io lib.now path e l in after

  abbrev pub repo_of : Session → List (Session × RepoState) → RepoState
  repo_of rs [] = lib.fresh rs
  repo_of rs ((k, r) ∷ repos) = let rest = repo_of rs repos in if k == rs then r else rest

  abbrev pub set_repo :
      Session → RepoState → List (Session × RepoState) → List (Session × RepoState)
  set_repo rs r [] = (rs, r) ∷ []
  set_repo rs r ((k, q) ∷ repos) =
      let rest = set_repo rs r repos in if k == rs then (k, r) ∷ repos else (k, q) ∷ rest

  -- the rest of `GetOrCreateRepoSession`, which logs the start of a new session
  abbrev pub logged_start : Names → Server → Server → Ledgers → Ledgers
  logged_start key before after l =
      if length after.starts == length before.starts
      then l
      else log_event (lib.path_text key) (empty_event (codes "session") (codes "start")) l

  unfoldable pub open_session : Bytes → Host → Host × SessionResult
  unfolding get_or_create_repo_session append
  open_session path h =
      let key = lib.normalize path in
      let (server, result) = get_or_create_repo_session lib.new_session key h.server in
      (record h { server = server; ledgers = logged_start key h.server server h.ledgers }, result)

  -- what a handler does behind an opened session
  abbrev pub with_session : Bytes → (Session → Host → Host × ToolResult) → Host → Host × ToolResult
  with_session path run h = then_run run (open_session path h)
    where
      then_run : (Session → Host → Host × ToolResult) → Host × SessionResult → Host × ToolResult
      then_run run (g, opened rs) = run rs g
      then_run run (g, refused e) = (g, failed (not_opened e))

  -- `RememberFact`: the save fails or not, and the fact is stored
  unfoldable pub remember_fact : Bytes → Bytes → RepoState → RepoState × Option SaveError
  unfolding Memory.store save_to_file
  remember_fact key fact r =
      let memory =
        Memory.store KnowledgeType.user_note key (new_user_note key fact) lib.now r.memory in
      let (file, error) =
        save_to_file lib.facts_json lib.facts_of_json lib.facts_files lib.now memory r.facts in
      (record r { memory = memory; facts = file }, error)

  abbrev pub fact_lines : List KnowledgeEntry → List Bytes
  fact_lines [] = []
  fact_lines (e ∷ es) =
      let rest = fact_lines es in
      if is_type KnowledgeType.user_note e then (e.key ++ (codes ": " ++ e.value)) ∷ rest else rest

  -- `RecallFacts`
  unfoldable pub recall_facts : Bytes → RepoState → List Bytes
  unfolding search_type search_all
  recall_facts words r =
      if bytes_eq (trim_space words) []
      then fact_lines (all_entries r.memory)
      else elim (search_type KnowledgeType.user_note words r.memory) [
        | [] ↦ fact_lines (search_all words r.memory)
        | e ∷ es ↦ fact_lines (e ∷ es)
      ]
