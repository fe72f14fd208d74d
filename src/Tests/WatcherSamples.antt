-- ===== src/Tests/WatcherSamples.antt =====
-- internal/watcher/watcher.go at concrete inputs.
use costwise_mcp.Prelude.{◌+◌, ◌≡◌, refl, true, false, [], ◌∷◌, none, some, codes}
use costwise_mcp.Index.{Node, folder, cons, nil}
use costwise_mcp.Watcher.{
  FileEvent, Repository, Watchdog, Tools, Outside, new_watchdog, start, watch_event, expire, stop,
}
use costwise_mcp.Watcher.Steps.{
  Reached, IsWatching, started, next, notified, quiet, expired, stopped, Reached-IsWatching,
}
use costwise_mcp.Watcher.Quiet.{
  done, step, work, batches, reindex_all, Settles, QuietRun-work, Reached-Settles,
}

abbrev tools : Tools
tools = record {
  sha256 = λ s. 1 ∷ s;
  refuses = λ s t. false;
  parser = record { symbols = λ path. none; references = λ path. none; calls = λ path. some [] };
  config = record { parse_symbols = true; parse_references = true; parse_calls = true };
  driver = λ f t. f t;
  marshal = λ e. some (codes "{}");
  root = codes "/r";
}

abbrev tree : Node
tree =
    folder (codes "/r")
      (cons (folder (codes "/r/.git") nil) (cons (folder (codes "/r/src") nil) nil))

abbrev repository : Repository
repository = record {
  tables = record { symbols = []; references = []; call_edges = []; files = [] };
  cache = none;
  ledgers = record { files = []; handles = [] };
}

abbrev outside : Outside
outside = record {
  tree = tree;
  loaded = true;
  selected = true;
  io = record { mkdir_ok = true; open_ok = true; write_ok = true; written = 0 };
  now = 7;
}

abbrev changed : FileEvent
changed = record {
  name = codes "/r/src/a.go";
  create = false;
  write = true;
  remove = false;
  rename = false;
  is_dir = false;
}

-- the loop runs, over the directories that are not skipped
abbrev running : Watchdog
running = record (new_watchdog repository) {
  watched = codes "/r" ∷ codes "/r/src" ∷ [];
  looping = true;
}

starts : start tree (new_watchdog repository) ≡ some running
unfolding start
starts = refl

abbrev armed : Watchdog
armed = watch_event changed running

armed-Reached : Reached tools armed
armed-Reached = next (started repository tree starts) (notified changed refl refl)

Reached-IsWatching_example : IsWatching armed
Reached-IsWatching_example = Reached-IsWatching tools armed-Reached

Reached-Settles_example :
    Settles tools armed (work armed) (reindex_all tools outside (batches armed) armed.repository)
Reached-Settles_example = Reached-Settles tools outside armed armed-Reached

waits : batches armed ≡ (codes "/r/src/a.go" ∷ []) ∷ []
unfolding watch_event
waits = refl

-- the timer runs out
is_armed : armed.armed ≡ true
unfolding watch_event
is_armed = refl

QuietRun-work_example : 1 + work (expire armed) ≡ work armed
QuietRun-work_example = QuietRun-work tools (step (expired is_armed refl) (done (expire armed)))

-- a timer that is armed still runs out behind `Stop`
stopped_timer : Reached tools (expire (stop armed))
stopped_timer = next (next armed-Reached (stopped refl)) (quiet (expired is_armed refl))
