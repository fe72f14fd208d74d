-- ===== src/Tests/LedgerSamples.antt =====
-- internal/ledger/ledger.go at concrete inputs.
use Prim.Native.Nat.{min}
use mathlib.Core.List.{reverse}
use costwise_mcp.Prelude.{
  ℕ, ◌-◌, ◌≡◌, ◌<◌, refl, ◌⊎◌, true, false, List, [], ◌∷◌, ◌++◌, Option, none, some, Bytes, codes,
  bytes_discrete, arith, All, drop, get_elem?, if◌then◌else◌, bytes_eq,
}
use costwise_mcp.Ledger.{Ledgers, Answers, append, file_of, write}
use costwise_mcp.Ledger.Events.{Event}
use costwise_mcp.Ledger.Scopes.{latest_session, last_n_sessions, idle_threshold}
use costwise_mcp.Ledger.Lines.{IsTorn, append_error}
use costwise_mcp.Ledger.Sessions.{
  IsRecent, latest_session-suffix, newest_first, last_groups, groups_from, last_n_sessions-groups,
}
use costwise_mcp.Ledger.Brief.{add_lines}
use costwise_mcp.Ledger.Budget.{IsBudgeted, add_lines-IsBudgeted}

abbrev event : ℕ → Bytes → Bytes → Event
event ts kind action = record {
  ts = ts;
  kind = kind;
  action = action;
  summary = [];
  handle = [];
  tokens = 0;
  query = [];
  source = [];
  files = 0;
  trigger = [];
  changed_files = [];
}

abbrev fact : ℕ → Event
fact ts = event ts (codes "fact") (codes "store")

abbrev start : ℕ → Event
start ts = event ts (codes "session") (codes "start")

-- a codec for the one event of the samples
abbrev to_json : Event → Option Bytes
to_json e = some (codes "{}")

abbrev of_json : Bytes → Option Event
of_json line = if bytes_eq line (codes "{}") then some (fact 5) else none

abbrev ledgers : Ledgers
ledgers = record { files = (codes "/r", codes "{}" ++ 10 ∷ []) ∷ []; handles = [] }

-- the disk is full behind three bytes of the line
abbrev full : Answers
full = record { mkdir_ok = true; open_ok = true; write_ok = false; written = 3 }

append_error_example :
    (file_of (codes "/r") (append to_json full 5 (codes "/r") (fact 1) ledgers).0.files
      ≡ file_of (codes "/r") ledgers.files)
    ⊎ ((codes "/r" ≡ codes "/r")
        × (write ≡ write)
        × IsTorn
            (to_json (record (fact 1) { ts = 5 }))
            3
            (file_of (codes "/r") ledgers.files)
            (file_of (codes "/r") (append to_json full 5 (codes "/r") (fact 1) ledgers).0.files))
unfolding append bytes_discrete
append_error_example =
    append_error to_json of_json full 5 (codes "/r") (fact 1) ledgers write (codes "/r") refl

-- 20 minutes apart: no gap reaches the threshold, and yet the first event is cut off
abbrev spread : List Event
spread = fact 0 ∷ fact 1_200_000_000_000 ∷ fact 2_400_000_000_000 ∷ []

latest_session-suffix_example :
    (n : ℕ) × (latest_session spread ≡ reverse (drop n spread))
    × All (IsRecent 2_400_000_000_000) (drop n spread)
    × ((n ≡ 0)
        ⊎ ((e : Event) × (get_elem? spread (n - 1) ≡ some e)
            × (idle_threshold < 2_400_000_000_000 - e.ts)))
latest_session-suffix_example = latest_session-suffix spread (fact 2_400_000_000_000) refl

spread_cut : latest_session spread ≡ fact 2_400_000_000_000 ∷ fact 1_200_000_000_000 ∷ []
unfolding latest_session
spread_cut = refl

abbrev marked : List Event
marked = start 2 ∷ fact 3 ∷ start 4 ∷ event 5 (codes "watch") (codes "auto_reindex") ∷ fact 6 ∷ []

last_n_sessions-groups_example :
    last_n_sessions (fact 1 ∷ marked) 2
    ≡ newest_first (last_groups (min 5 2) (groups_from (fact 1 ∷ marked) []))
last_n_sessions-groups_example = last_n_sessions-groups (fact 1) marked 2 (omega arith)

two_sessions : last_n_sessions (fact 1 ∷ marked) 2 ≡ fact 6 ∷ fact 3 ∷ []
unfolding last_n_sessions
two_sessions = refl

abbrev no_format : Bytes → ℕ → Bytes
no_format layout t = []

add_lines-IsBudgeted_example :
    IsBudgeted 12
      (codes "head")
      0
      (codes "a long line" ∷ codes "x" ∷ [])
      (add_lines no_format 12 (codes "head") 0 (codes "a long line" ∷ codes "x" ∷ []))
add_lines-IsBudgeted_example =
    add_lines-IsBudgeted no_format 12 (codes "head") 0 (codes "a long line" ∷ codes "x" ∷ [])
      (omega arith)

-- the newer line is dropped and the older one is kept
newer_dropped :
    add_lines no_format 12 (codes "head") 0 (codes "a long line" ∷ codes "x" ∷ [])
    ≡ (codes "head" ++ (codes "x" ++ 10 ∷ []), 1)
unfolding add_lines
newer_dropped = refl
