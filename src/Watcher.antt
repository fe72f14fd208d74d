-- ===== src/Watcher.antt =====
-- internal/watcher/watcher.go: the changes of files that lead to a new run of the index. The events
-- come from fsnotify, and the timer, the locks and the goroutines are the steps of a relation.
pub mod Steps
pub mod Quiet
use costwise_mcp.Prelude.{
  ℕ, zero, suc, ◌+◌, Bool, true, false, not, ◌&&◌, ◌||◌, List, [], ◌∷◌, ◌++◌, map, Option, none,
  some, Bytes, codes, hex, bytes_eq, ltb, ◌==◌, if◌then◌else◌, length, take, drop, has_prefix,
  has_suffix,
}
use costwise_mcp.Index.{IndexConfig, Parser, Node, Nodes, file, folder, denied, nil, cons, index}
use costwise_mcp.Index.Paths.{base, one_of}
use costwise_mcp.Index.Database.{Tables, Statement}
use costwise_mcp.Cache.{Cache, Table, invalidate}
use costwise_mcp.Ledger.{Ledgers, Answers, append}
use costwise_mcp.Ledger.Events.{Event}

abbrev pub max_changed_files : ℕ
max_changed_files = 10

-- one event of fsnotify, with what `os.Stat` says about its path
pub record FileEvent : Type 0 where
  pub name : Bytes
  pub create : Bool
  pub write : Bool
  pub remove : Bool
  pub rename : Bool
  pub is_dir : Bool

-- what a run changes: the tables of the index, the cache, if there is one, and the ledger
pub record Repository : Type 0 where
  pub tables : Tables
  pub cache : Option Cache
  pub ledgers : Ledgers

-- the timer is armed or not; `due` callbacks wait for the lock; `runs` holds the files that each
-- callback behind the lock has taken
pub record Watchdog : Type 0 where
  pub watched : List Bytes
  pub changed_files : List Bytes
  pub armed : Bool
  pub due : ℕ
  pub runs : List (List Bytes)
  pub cancelled : Bool
  pub looping : Bool
  pub repository : Repository

-- `NewWatchdog`
abbrev pub new_watchdog : Repository → Watchdog
new_watchdog repository = record {
  watched = [];
  changed_files = [];
  armed = false;
  due = 0;
  runs = [];
  cancelled = false;
  looping = false;
  repository = repository;
}

abbrev skipped_names : List Bytes
skipped_names =
    codes ".git"
    ∷ codes "node_modules"
    ∷ codes "vendor"
    ∷ codes ".codegraph"
    ∷ codes ".mycli-fts"
    ∷ []

abbrev with_first : Bytes → Option (List Bytes) → Option (List Bytes)
with_first path none = none
with_first path (some paths) = some (path ∷ paths)

abbrev both : Option (List Bytes) → Option (List Bytes) → Option (List Bytes)
both (some p) (some q) = some (p ++ q)
both (some p) none = none
both none q = none

-- the walk of `Start`: the directories that it adds, or none when the walk fails
unfoldable mutual
  pub directories : Node → Option (List Bytes)
  directories (file f) = some []
  directories (folder path nodes) =
      if one_of (base path) skipped_names then some [] else with_first path (directories_all nodes)
  directories denied = none

  pub directories_all : Nodes → Option (List Bytes)
  directories_all nil = some []
  directories_all (cons n ns) = both (directories n) (directories_all ns)

-- `Start` behind the walk; `none` is its error
abbrev pub begin : Option (List Bytes) → Watchdog → Option Watchdog
begin none w = none
begin (some paths) w = some (record w { watched = w.watched ++ paths; looping = true })

unfoldable pub start : Node → Watchdog → Option Watchdog
unfolding directories
start root w = begin (directories root) w

abbrev pub is_temporary : Bytes → Bool
is_temporary name =
    has_suffix name (codes "~")
    || (has_suffix name (codes ".swp") || has_prefix (base name) (codes ".gopls"))

-- `triggerReindex`
unfoldable pub trigger_reindex : Bytes → Watchdog → Watchdog
trigger_reindex path w =
    let files =
      if ltb (length w.changed_files) max_changed_files
      then w.changed_files ++ path ∷ []
      else w.changed_files in
    record w { changed_files = files; armed = true }

-- the body of `watchLoop` for an event
unfoldable pub watch_event : FileEvent → Watchdog → Watchdog
unfolding trigger_reindex
watch_event e w =
    let watched = if e.create && e.is_dir then w.watched ++ e.name ∷ [] else w.watched in
    if is_temporary e.name
    then w
    else if e.write || (e.create || (e.remove || e.rename))
    then trigger_reindex e.name (record w { watched = watched })
    else record w { watched = watched }

-- the timer runs out: a goroutine starts its callback
abbrev pub expire : Watchdog → Watchdog
expire w = record w { armed = false; due = suc w.due }

-- the callback has the lock: it takes the files
abbrev pub take_files : ℕ → Watchdog → Watchdog
take_files due w = record w { due = due; changed_files = []; runs = w.runs ++ w.changed_files ∷ [] }

-- `Stop`, and the end of the loop behind it
abbrev pub stop : Watchdog → Watchdog
stop w = record w { cancelled = true }

abbrev pub end_loop : Watchdog → Watchdog
end_loop w = record w { looping = false }

-- `strings.TrimPrefix(f, root + "/")`
abbrev pub relative : Bytes → Bytes → Bytes
relative root f = if has_prefix f (root ++ b'/' ∷ []) then drop (length root + 1) f else f

abbrev pub watch_event_of : List Bytes → Event
watch_event_of files = record {
  ts = 0;
  kind = codes "watch";
  action = codes "auto_reindex";
  summary = [];
  handle = [];
  tokens = 0;
  query = [];
  source = [];
  files = 0;
  trigger = [];
  changed_files = files;
}

-- the libraries that a run calls, and what does not change from run to run
pub record Tools : Type 0 where
  pub sha256 : Bytes → Bytes
  pub refuses : Statement → Tables → Bool
  pub parser : Parser
  pub config : IndexConfig
  pub driver : (Table → Table) → Table → Table
  pub marshal : Event → Option Bytes
  pub root : Bytes

-- what a run meets: the tree of files, the outcomes of the queries and of the ledger's file, the time
pub record Outside : Type 0 where
  pub tree : Node
  pub loaded : Bool
  pub selected : Bool
  pub io : Answers
  pub now : ℕ

module _ (tools : Tools) where
  -- `cache.RepoHash`
  abbrev pub repo_hash_of : Bytes
  repo_hash_of = hex (take 8 (tools.sha256 tools.root))

  -- `wd.repoSession.Cache.Invalidate`
  abbrev pub invalidate_cache : Bool → Option Cache → Option Cache
  invalidate_cache selected none = none
  invalidate_cache selected (some c) =
      some (invalidate tools.sha256 tools.driver selected repo_hash_of c)

  -- the callback behind the lock, for the files it took
  unfoldable pub reindex : Outside → List Bytes → Repository → Repository
  unfolding index invalidate append
  reindex o files r =
      let (p, ok) =
        index tools.sha256 tools.refuses tools.parser tools.config o.loaded o.tree r.tables in
      let changed = ltb 0 p.result.changed || ltb 0 p.result.deleted in
      let cache = if changed then invalidate_cache o.selected r.cache else r.cache in
      let event = watch_event_of (map (relative tools.root) files) in
      let (ledgers, error) = append tools.marshal o.io o.now tools.root event r.ledgers in
      if ok
      then record { tables = p.tables; cache = cache; ledgers = ledgers }
      else record r { tables = p.tables }

  -- one of the runs comes to its end
  abbrev pub finish :
      List (List Bytes) → List (List Bytes) → List Bytes → Outside → Watchdog → Watchdog
  finish before after files o w = record w {
    runs = before ++ after;
    repository = reindex o files w.repository;
  }
