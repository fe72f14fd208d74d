-- ===== src/Discovery.antt =====
-- internal/discovery_memory/discovery_memory.go: results of tools, kept for a time. A time is in
-- nanoseconds; a row holds seconds. The JSON of a result and the refusals of the database are
-- parameters, and a `ttl` is not negative.
pub mod Expiry
use costwise_mcp.Prelude.{
  ℕ, suc, ◌+◌, ◌-◌, ◌*◌, ◌/◌, Bool, true, false, not, ◌&&◌, List, [], ◌∷◌, Option, none, some,
  Bytes, bytes_eq, ltb, ◌==◌, if◌then◌else◌, keep_if, take, drop, get_elem?, ◌++◌,
}

-- a row of `tool_discoveries`
pub record Row : Type 0 where
  pub query : Bytes
  pub tool : Bytes
  pub result : Bytes
  pub confidence : ℕ
  pub ttl_secs : ℕ
  pub created_at : ℕ

-- the table, by falling `id`
pub record DiscoveryMemory : Type 0 where
  pub rows : List Row

pub record ToolResult : Type 0 where
  pub query : Bytes
  pub tool : Bytes
  pub files : List Bytes
  pub snippets : List Bytes
  pub confidence : ℕ
  pub created_at : ℕ
  pub ttl : ℕ

-- the answers of `Lookup`; an expired result starts the deletion of its rows
pub data Answer : Type 0 where
  absent expired broken : Answer
  found : ToolResult → Answer

abbrev pub second : ℕ
second = 1000000000

abbrev pub day : ℕ
day = 86400 * second

abbrev pub or_day : ℕ → ℕ
or_day ttl = if ttl == 0 then day else ttl

-- `WHERE query=? AND tool=?`
abbrev pub is_asked : Bytes → Bytes → Row → Bool
is_asked query tool r = bytes_eq r.query query && bytes_eq r.tool tool

-- `ORDER BY id DESC LIMIT 1`
abbrev pub newest : Bytes → Bytes → List Row → Option Row
newest query tool [] = none
newest query tool (r ∷ rows) =
    let rest = newest query tool rows in if is_asked query tool r then some r else rest

-- `time.Since(createdAt) > ttl`
abbrev pub is_expired : ℕ → Row → Bool
is_expired now r = ltb (r.ttl_secs * second) (now - r.created_at * second)

-- the DELETE that an expired result starts
unfoldable pub forget : Bytes → Bytes → DiscoveryMemory → DiscoveryMemory
forget query tool m = record { rows = keep_if (λ r. not (is_asked query tool r)) m.rows }

-- `Purge`, in whole seconds
unfoldable pub purge : ℕ → DiscoveryMemory → DiscoveryMemory
purge now m = record {
  rows = keep_if (λ r. not (ltb r.ttl_secs (now / second - r.created_at))) m.rows;
}

-- the table, and the deletions in the background that have not run yet
pub record Running : Type 0 where
  pub memory : DiscoveryMemory
  pub deletions : List (Bytes × Bytes)

-- an expired answer starts a deletion
abbrev started : Bytes → Bytes → Answer → List (Bytes × Bytes) → List (Bytes × Bytes)
started query tool expired deletions = (query, tool) ∷ deletions
started query tool absent deletions = deletions
started query tool broken deletions = deletions
started query tool (found r) deletions = deletions

-- one of the deletions runs, in any order; `deletes` is false when it fails, which is dropped
unfoldable pub run_deletion : Bool → ℕ → Running → Running
unfolding forget
run_deletion deletes i d =
    let left = take i d.deletions ++ drop (suc i) d.deletions in
    elim (get_elem? d.deletions i) [
      | none ↦ d
      | some (query, tool) ↦
          if deletes
          then record { memory = forget query tool d.memory; deletions = left }
          else record d { deletions = left }
    ]

module _ (to_json : List Bytes → List Bytes → Option Bytes)
    (of_json : Bytes → Option (List Bytes × List Bytes)) where
  -- `Store`; false is an error
  unfoldable pub store :
      Bool
      → ℕ
      → Bytes
      → Bytes
      → List Bytes
      → List Bytes
      → ℕ
      → ℕ
      → DiscoveryMemory
      → DiscoveryMemory × Bool
  store inserts now query tool files snippets confidence ttl m = elim (to_json files snippets) [
    | none ↦ (m, false)
    | some payload ↦
        let row : Row = record {
          query = query;
          tool = tool;
          result = payload;
          confidence = confidence;
          ttl_secs = or_day ttl / second;
          created_at = now / second;
        } in
        if inserts then (record { rows = row ∷ m.rows }, true) else (m, false)
  ]

  abbrev pub result_of : Row → List Bytes × List Bytes → ToolResult
  result_of r (files, snippets) = record {
    query = r.query;
    tool = r.tool;
    files = files;
    snippets = snippets;
    confidence = r.confidence;
    created_at = r.created_at * second;
    ttl = r.ttl_secs * second;
  }

  abbrev pub opened : Row → Option (List Bytes × List Bytes) → Answer
  opened r none = broken
  opened r (some payload) = found (result_of r payload)

  abbrev pub answer : ℕ → Option Row → Answer
  answer now none = absent
  answer now (some r) = if is_expired now r then expired else opened r (of_json r.result)

  -- what `Lookup` answers from a table that can be queried. The rows are those of `store`, whose
  -- columns can be scanned and whose times can be parsed.
  unfoldable pub lookup_tool : ℕ → Bytes → Bytes → DiscoveryMemory → Answer
  lookup_tool now query tool m = answer now (newest query tool m.rows)

  -- `Lookup` as a step; `queries` is false when the query fails
  unfoldable pub lookup_running : Bool → ℕ → Bytes → Bytes → Running → Running × Answer
  unfolding lookup_tool
  lookup_running queries now query tool d =
      let a = lookup_tool now query tool d.memory in
      if queries
      then (record d { deletions = started query tool a d.deletions }, a)
      else (d, broken)
