-- ===== src/Tests/RecordSamples.antt =====
-- internal/discovery_memory/discovery_memory.go, internal/repo_memory/repo_memory.go and
-- internal/retrieval/filters.go at concrete inputs.
use costwise_mcp.Prelude.{
  ℕ, ◌-◌, ◌*◌, ◌/◌, ◌≡◌, refl, ℤ, true, false, ◌&&◌, List, [], ◌∷◌, Option, some, Bytes, codes,
  bytes_eq, ltb, if◌then◌else◌, sort_by,
}
use costwise_mcp.Discovery.{
  DiscoveryMemory, ToolResult, expired, found, second, or_day, purge, store, lookup_tool, Running,
  lookup_running, run_deletion, day,
}
use costwise_mcp.Discovery.Expiry.{lookup_tool-purge, lookup_tool-store}
use costwise_mcp.Builder.{Result}
use costwise_mcp.Filters.{is_shown, filter_results}
use costwise_mcp.RepoMemory.{Call, migrated, learn_call, get_callers}

abbrev to_json : List Bytes → List Bytes → Option Bytes
to_json files snippets = some (codes "{}")

abbrev of_json : Bytes → Option (List Bytes × List Bytes)
of_json text = some (codes "a.go" ∷ [], [])

abbrev empty : DiscoveryMemory
empty = record { rows = [] }

-- stored at 1.5 seconds with the given time to live
abbrev stored : ℕ → DiscoveryMemory → DiscoveryMemory
stored ttl m =
    (store to_json of_json true 1500000000 (codes "q") (codes "grep") (codes "a.go" ∷ []) [] 90 ttl
      m).0

abbrev the_result : ToolResult
the_result = record {
  query = codes "q";
  tool = codes "grep";
  files = codes "a.go" ∷ [];
  snippets = [];
  confidence = 90;
  created_at = second;
  ttl = 2 * second;
}

lookup_tool-store_example :
    lookup_tool to_json of_json (3 * second) (codes "q") (codes "grep") (stored (2 * second) empty)
    ≡ (if bytes_eq (codes "q") (codes "q") && bytes_eq (codes "grep") (codes "grep")
        then (if ltb
              (or_day (2 * second) / second * second)
              (3 * second - 1500000000 / second * second)
            then expired
            else found (record {
              query = codes "q";
              tool = codes "grep";
              files = codes "a.go" ∷ [];
              snippets = [];
              confidence = 90;
              created_at = 1500000000 / second * second;
              ttl = or_day (2 * second) / second * second;
            }))
        else lookup_tool to_json of_json (3 * second) (codes "q") (codes "grep") empty)
lookup_tool-store_example =
    lookup_tool-store to_json of_json 1500000000 (3 * second) (codes "q") (codes "grep") (codes "q")
      (codes "grep") (codes "a.go" ∷ []) [] 90 (2 * second) empty (codes "{}") refl refl

-- An expired result is looked up, a new one is stored, and then the started deletion runs.
abbrev after_lookup : Running
after_lookup =
    (lookup_running to_json of_json true (9 * second) (codes "q") (codes "grep")
      (record { memory = stored (2 * second) empty; deletions = [] })).0

late_deletion :
    (run_deletion true 0
      (record after_lookup { memory = stored day after_lookup.memory })).memory.rows
    ≡ []
unfolding lookup_running store run_deletion
late_deletion = refl

found_at_three :
    lookup_tool to_json of_json (3 * second) (codes "q") (codes "grep") (stored (2 * second) empty)
    ≡ found the_result
unfolding lookup_tool store
found_at_three = refl

lookup_tool-purge_example :
    lookup_tool to_json of_json
      (3 * second)
      (codes "q")
      (codes "grep")
      (purge (3 * second) (stored (2 * second) empty))
    ≡ found the_result
lookup_tool-purge_example =
    lookup_tool-purge to_json of_json (3 * second) (codes "q") (codes "grep")
      (stored (2 * second) empty) the_result found_at_three

-- half a second before the two seconds are over, counted from the call
too_early :
    lookup_tool to_json of_json 3000000001 (codes "q") (codes "grep") (stored (2 * second) empty)
    ≡ expired
unfolding lookup_tool store
too_early = refl

-- a purge brings an older result back, which a later one with a shorter time to live has hidden
hidden :
    lookup_tool to_json of_json
      (4 * second)
      (codes "q")
      (codes "grep")
      (stored second (stored (9 * second) empty))
    ≡ expired
unfolding lookup_tool store
hidden = refl

abbrev older : ToolResult
older = record the_result { ttl = 9 * second }

back :
    lookup_tool to_json of_json
      (4 * second)
      (codes "q")
      (codes "grep")
      (purge (4 * second) (stored second (stored (9 * second) empty)))
    ≡ found older
unfolding lookup_tool store purge
back = refl

abbrev result : Bytes → ℕ → Result
result file score = record { file = file; score = score; snippet = []; line_from = 1; line_to = 2 }

-- a directory whose name ends in "build" is taken for an excluded one
rebuilt : is_shown 0 (result (codes "internal/rebuild/run.go") 5) ≡ false
unfolding is_shown
rebuilt = refl

filtered :
    filter_results 3
      (ℤ.pos 1)
      (result (codes "a.go") 4 ∷ result (codes "b.go") 2 ∷ result (codes "c.go") 9 ∷ [])
    ≡ result (codes "c.go") 9 ∷ []
unfolding filter_results sort_by
filtered = refl

abbrev call : Call
call = record { caller = codes "main"; callee = codes "run"; file = codes "a.go"; line = 3 }

learned :
    get_callers (codes "run") (learn_call true call (learn_call true call migrated).0).0 ≡ call ∷ []
unfolding get_callers learn_call
learned = refl
