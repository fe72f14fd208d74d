-- ===== src/Tests/CacheSamples.antt =====
-- internal/cache/cache.go at concrete inputs.
use native.Mathlib.Decide.{ℕ_discrete}
use costwise_mcp.Prelude.{
  ℕ, ◌≡◌, refl, true, not, List, [], ◌∷◌, none, some, Bytes, codes, pos, negsuc, or_default,
  keep_if, arith, sort_by, insert_by, bytes_eq, bytes_discrete, decimal,
}
use costwise_mcp.Cache
use costwise_mcp.Cache.{
  CacheKey, CacheEntry, Row, Table, Cache, Opening, raw, hash, put, new_cache, load_from_db,
  empty_cache, invalidate, by_last_accessed,
}
use costwise_mcp.Cache.Elements.{view}
use costwise_mcp.Cache.Sync.{IsValid}
use costwise_mcp.Cache.Runs.{Call, run, run_recent, run-run_recent}
use costwise_mcp.Cache.Loading.{IsOpened, load_from_db-IsLoaded, new_cache-IsValid}
use costwise_mcp.Cache.Invalidation.{has_row, invalidate-view}
use costwise_mcp.Cache.Keys.{raw-injective}

abbrev key_of : Bytes → Bytes → CacheKey
key_of repo query = record {
  repo_hash = repo;
  query = query;
  retriever = codes "grep";
  context_level = codes "1";
  token_budget = pos 300;
}

abbrev entry_of : ℕ → CacheEntry
entry_of n = record { results_json = []; context = codes "ctx"; tokens = n; created_at = 7 }

-- a digest that keeps the text, and a driver that runs each statement
abbrev digest : Bytes → Bytes
digest s = s

abbrev driver : (Table → Table) → Table → Table
driver f t = f t

abbrev calls : List Call
calls =
    Call.put (key_of (codes "a") (codes "x")) (entry_of 1)
    ∷ Call.put (key_of (codes "a") (codes "y")) (entry_of 2)
    ∷ Call.get (key_of (codes "a") (codes "x"))
    ∷ Call.put (key_of (codes "b") (codes "z")) (entry_of 3)
    ∷ Call.get (key_of (codes "a") (codes "y"))
    ∷ []

-- nothing fails, or the row `h2` cannot be scanned
abbrev fine : Opening
fine = record {
  dir_ok = true;
  open_ok = true;
  tables_ok = true;
  selected = true;
  scans = λ r. true;
}

abbrev unscanned : Opening
unscanned = record fine { scans = λ r. not (bytes_eq r.0 (codes "h2")) }

abbrev start : Cache
start = load_from_db fine (empty_cache (pos 2) [])

start-IsValid : IsValid start
start-IsValid = (load_from_db-IsLoaded fine (pos 2) [] tt).valid

run-run_recent_example :
    IsValid (run digest driver 0 calls start).0
    × (view (run digest driver 0 calls start).0.lru
        ≡ (run_recent digest driver start.max_size calls (view start.lru)).0)
    × ((run digest driver 0 calls start).1
        ≡ (run_recent digest driver start.max_size calls (view start.lru)).1)
run-run_recent_example = run-run_recent digest driver 0 calls start start-IsValid

abbrev rows : Table
rows =
    (
      codes "h1",
      record { key = key_of (codes "a") (codes "x"); stored = entry_of 1; last_accessed = 5 },
    )
    ∷ (
      codes "h2",
      record { key = key_of (codes "b") (codes "y"); stored = entry_of 2; last_accessed = 9 },
    )
    ∷ []

new_cache-IsValid_example :
    IsOpened unscanned (or_default 100 (negsuc 0)) rows (new_cache unscanned (negsuc 0) rows)
unfolding bytes_discrete
new_cache-IsValid_example = new_cache-IsValid unscanned (negsuc 0) rows (refl, (refl, tt))

abbrev loaded : Cache
loaded = load_from_db fine (empty_cache (pos 5) rows)

loaded-IsValid : IsValid loaded
unfolding bytes_discrete
loaded-IsValid = (load_from_db-IsLoaded fine (pos 5) rows (refl, (refl, tt))).valid

invalidate-view_example :
    IsValid (invalidate digest driver true (codes "a") loaded)
    × (view (invalidate digest driver true (codes "a") loaded).lru
        ≡ keep_if (λ p. not (has_row (codes "a") p.0 loaded.db)) (view loaded.lru))
invalidate-view_example = invalidate-view digest driver true (codes "a") loaded loaded-IsValid

invalidated :
    view (invalidate digest driver true (codes "a") loaded).lru ≡ (codes "h2", entry_of 2) ∷ []
unfolding load_from_db invalidate by_last_accessed sort_by insert_by bytes_discrete ℕ_discrete
invalidated = refl

-- the least recent entry leaves: `x` was read, so it is `y`
answers : (run digest driver 0 calls start).1 ≡ some (entry_of 1) ∷ none ∷ []
unfolding run Cache.get put load_from_db by_last_accessed sort_by insert_by bytes_discrete
    ℕ_discrete decimal
answers = refl

abbrev plain_key : CacheKey
plain_key = key_of (codes "9f") (codes "a|b")

raw-injective_example : plain_key ≡ plain_key
raw-injective_example =
    raw-injective plain_key plain_key
      (record { repo_hash = omega arith; retriever = omega arith; context_level = omega arith })
      (record { repo_hash = omega arith; retriever = omega arith; context_level = omega arith })
      refl
