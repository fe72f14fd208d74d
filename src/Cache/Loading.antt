-- ===== src/Cache/Loading.antt =====
-- internal/cache/cache.go: the cache that `NewCache` loads from its table.
use costwise_mcp.Prelude.{
  ℕ, ◌<◌, ◌≡◌, refl, ap, ◌∙◌, [], bytes_discrete, length, take, arith, Bool-cases, ℤ, or_default,
  inl, inr, length-take, Distinct, Bool, true, false, not, ◌&&◌, ◌⊎◌, if◌then◌else◌, keep_if,
  sort_by, IsTop, take-sort_by-IsTop, subst,
}
use costwise_mcp.Cache.{
  Table, Cache, Opening, CacheError, make_dir, open_db, create_tables, load_rows, new_cache,
  empty_cache, load_from_db, by_last_accessed,
}
use costwise_mcp.Cache.Elements.{view, length-view}
use costwise_mcp.Cache.Sync.{IsSync, IsValid}
use costwise_mcp.Cache.Rows.{load_rows_lem, stored_entries}
use costwise_mcp.Cache.Latest.{
  All-IsNew, keep_if-Distinct, keep_if-all, later, later-IsStrictOrder, length-keep_if-le,
  length-stored, or_default_pos, sort_by-Distinct, take-Distinct,
}

-- the rows that a query for the latest `n` shows, and what the cache has of them
pub record IsLoaded (io : Opening) (n : ℕ) (db : Table) (c : Cache) : Type 0 where
  pub shown : Table
  pub latest : IsTop later (λ _. true) n db shown
  pub seen : view c.lru ≡ (if io.selected then stored_entries (keep_if io.scans shown) else [])
  pub valid : IsValid c
  pub sized : c.max_size ≡ n

pub load_from_db-IsLoaded :
    (io : Opening) (max_size : ℤ) (db : Table)
    → Distinct bytes_discrete db
    → IsLoaded io (or_default 100 max_size) db (load_from_db io (empty_cache max_size db))
unfolding load_from_db by_last_accessed
load_from_db-IsLoaded io max_size db d =
    let n = or_default 100 max_size in
    let empty : Cache = empty_cache max_size db in
    let shown : Table = take n (sort_by later db) in
    let rows : Table = keep_if io.scans shown in
    let some_room : 0 < n = or_default_pos max_size in
    let latest : IsTop later (λ _. true) n db shown =
      subst (λ (t : Table). IsTop later (λ _. true) n db (take n (sort_by later t)))
        (keep_if-all db) (take-sort_by-IsTop later later-IsStrictOrder (λ _. true) n db) in
    let start : IsSync empty = record {
      positive = some_room;
      linked = tt;
      below = tt;
      unique = tt;
      agree = λ h. refl;
    } in
    let (s, seen, size) =
      load_rows_lem rows empty start
        (keep_if-Distinct io.scans shown
          (take-Distinct n (sort_by later db) (sort_by-Distinct db d)))
        (All-IsNew rows) in
    elim (Bool-cases io.selected) [
      | inr failed ↦ record {
        shown = shown;
        latest = latest;
        seen = rw failed refl;
        valid = rw failed (record { sync = start; bounded = omega arith });
        sized = rw failed refl;
      }
      | inl selected ↦ record {
        shown = shown;
        latest = latest;
        seen = rw selected seen;
        valid = rw selected (record {
          sync = s;
          bounded = omega (
            arith,
            length-view (load_rows rows empty).lru,
            ap length seen,
            length-stored rows,
            length-keep_if-le io.scans shown,
            length-take n (sort_by later db),
            size,
          );
        });
        sized = rw selected size;
      }
    ]

-- what `NewCache` returns, by whether its directory, file and tables can be made
abbrev pub IsOpened : Opening → ℕ → Table → Cache ⊎ CacheError → Type 0
IsOpened io n db (inl c) = ((io.dir_ok && (io.open_ok && io.tables_ok)) ≡ true) × IsLoaded io n db c
IsOpened io n db (inr error) = (io.dir_ok && (io.open_ok && io.tables_ok)) ≡ false

-- the early returns of `NewCache` before the rows are loaded
opening-IsOpened :
    (dir file tables : Bool) (io : Opening) (n : ℕ) (db : Table) (c : Cache)
    → io.dir_ok ≡ dir
    → io.open_ok ≡ file
    → io.tables_ok ≡ tables
    → IsLoaded io n db c
    → IsOpened io n db (
        if not dir
        then inr make_dir
        else if not file
        then inr open_db
        else if not tables
        then inr create_tables
        else inl c)
opening-IsOpened false file tables io n db c p q r loaded =
    ap (λ (b : Bool). b && (io.open_ok && io.tables_ok)) p
opening-IsOpened true false tables io n db c p q r loaded =
    ap (λ (b : Bool). b && (io.open_ok && io.tables_ok)) p ∙ ap (λ (b : Bool). b && io.tables_ok) q
opening-IsOpened true true false io n db c p q r loaded =
    ap (λ (b : Bool). b && (io.open_ok && io.tables_ok)) p
    ∙ (ap (λ (b : Bool). b && io.tables_ok) q ∙ r)
opening-IsOpened true true true io n db c p q r loaded = (
  ap (λ (b : Bool). b && (io.open_ok && io.tables_ok)) p
      ∙ (ap (λ (b : Bool). b && io.tables_ok) q ∙ r),
  loaded,
)

-- Over a table without a double key, `NewCache` returns an error exactly if it cannot make the
-- directory, the file or the tables. Otherwise it makes a valid cache of the given size, 100 if it
-- is not positive, which shows, of the most recently used rows that fit, with equal times in any
-- order, those that are read, in their order; if the rows cannot be selected it shows none.
pub new_cache-IsValid :
    (io : Opening) (max_size : ℤ) (db : Table)
    → Distinct bytes_discrete db
    → IsOpened io (or_default 100 max_size) db (new_cache io max_size db)
unfolding new_cache
new_cache-IsValid io max_size db d =
    opening-IsOpened io.dir_ok io.open_ok io.tables_ok io (or_default 100 max_size) db
      (load_from_db io (empty_cache max_size db)) refl refl refl
      (load_from_db-IsLoaded io max_size db d)
