-- ===== src/Cache.antt =====
-- internal/cache/cache.go: the LRU cache of retrieval results, in memory and in SQLite.
-- `entries` maps a key's hash to an element of the list `lru`, the most recent first. An element is
-- a numbered cell, so that the map and the list share it as the pointers of container/list do.
-- The table is a list of rows under their primary key.
pub mod Elements
pub mod Sync
pub mod Eviction
pub mod Refinement
pub mod Runs
pub mod Rows
pub mod Latest
pub mod Loading
pub mod Staying
pub mod Invalidation
pub mod Keys
use mathlib.Core.Logic.{ite}
use native.Mathlib.Decide.{ℕ_discrete}
use costwise_mcp.Prelude.{
  ℕ, zero, suc, ◌+◌, ◌-◌, Bool, true, false, not, List, [], ◌∷◌, ◌++◌, map, Option, none, some,
  Bytes, codes, hex, signed, ℤ, or_default, bytes_eq, bytes_discrete, leb, ltb, if◌then◌else◌,
  length, take, keep_if, get_last?, lookup, delete, insert, sort_by, ◌⊎◌, inl, inr,
}

pub record CacheKey : Type 0 where
  pub repo_hash : Bytes
  pub query : Bytes
  pub retriever : Bytes
  pub context_level : Bytes
  pub token_budget : ℤ

pub record CacheEntry : Type 0 where
  pub results_json : Bytes
  pub context : Bytes
  pub tokens : ℕ
  pub created_at : ℕ

pub record CacheItem : Type 0 where
  pub key_hash : Bytes
  pub entry : CacheEntry

-- a row of `cache_entries` behind its primary key
pub record Row : Type 0 where
  pub key : CacheKey
  pub stored : CacheEntry
  pub last_accessed : ℕ

abbrev pub Table : Type 0
Table = List (Bytes × Row)

pub record Cache : Type 0 where
  pub max_size : ℕ
  pub entries : List (Bytes × ℕ)
  pub lru : List (ℕ × CacheItem)
  pub next_element : ℕ
  pub db : Table
  pub hits : ℕ
  pub misses : ℕ

pub record CacheStats : Type 0 where
  pub hits : ℕ
  pub misses : ℕ
  -- the hit rate is `hits / total`, 0 when `total` is 0
  pub total : ℕ
  pub size : ℕ
  pub max_size : ℕ

abbrev bar : Bytes
bar = b'|' ∷ []

-- the text that `CacheKey.hash` digests
unfoldable pub raw : CacheKey → Bytes
raw k =
    k.repo_hash
    ++ (b'|'
        ∷ (k.query
            ++ (b'|'
                ∷ (k.retriever ++ (b'|' ∷ (k.context_level ++ (b'|' ∷ signed k.token_budget)))))))

-- container/list: `MoveToFront`, and `Back` with `Remove`
abbrev pub move_to_front : ℕ → List (ℕ × CacheItem) → List (ℕ × CacheItem)
move_to_front e l = elim (lookup ℕ_discrete e l) [
  | none ↦ l
  | some item ↦ (e, item) ∷ delete ℕ_discrete e l
]

-- `elem.Value.(*cacheItem).entry = entry`, through the pointer
abbrev pub set_entry : ℕ → CacheEntry → List (ℕ × CacheItem) → List (ℕ × CacheItem)
set_entry e entry [] = []
set_entry e entry ((i, item) ∷ l) =
    let rest = set_entry e entry l in
    ite (ℕ_discrete i e) ((i, record item { entry = entry }) ∷ rest) ((i, item) ∷ rest)

-- ORDER BY last_accessed DESC
unfoldable pub by_last_accessed : Table → Table
by_last_accessed t = sort_by (λ (r s : Bytes × Row). ltb s.1.last_accessed r.1.last_accessed) t

-- the loop of `loadFromDB`
unfoldable pub load_rows : Table → Cache → Cache
load_rows [] c = c
load_rows ((h, r) ∷ t) c = load_rows t (record c {
  lru = c.lru ++ (c.next_element, record { key_hash = h; entry = r.stored }) ∷ [];
  entries = insert bytes_discrete h c.next_element c.entries;
  next_element = suc c.next_element;
})

-- how the steps of `NewCache` go: whether the directory is made, the file opened, the tables made
-- and the rows selected, and which of the selected rows are read and scanned
pub record Opening : Type 0 where
  pub dir_ok : Bool
  pub open_ok : Bool
  pub tables_ok : Bool
  pub selected : Bool
  pub scans : Bytes × Row → Bool

pub data CacheError : Type 0 where
  make_dir open_db create_tables : CacheError

-- `loadFromDB`, which passes over every error
unfoldable pub load_from_db : Opening → Cache → Cache
unfolding load_rows by_last_accessed
load_from_db io c =
    if io.selected
    then load_rows (keep_if io.scans (take c.max_size (by_last_accessed c.db))) c
    else c

-- the cache before its rows are loaded
abbrev pub empty_cache : ℤ → Table → Cache
empty_cache max_size db = record {
  max_size = or_default 100 max_size;
  entries = [];
  lru = [];
  next_element = 0;
  db = db;
  hits = 0;
  misses = 0;
}

-- `NewCache`, over the table that the database file holds
unfoldable pub new_cache : Opening → ℤ → Table → Cache ⊎ CacheError
unfolding load_from_db
new_cache io max_size db =
    if not io.dir_ok
    then inr make_dir
    else if not io.open_ok
    then inr open_db
    else if not io.tables_ok
    then inr create_tables
    else inl (load_from_db io (empty_cache max_size db))

-- `Stats`; `HitRate` is the quotient of the two counts
unfoldable pub stats : Cache → CacheStats
stats c = record {
  hits = c.hits;
  misses = c.misses;
  total = c.hits + c.misses;
  size = length c.lru;
  max_size = c.max_size;
}

-- `sha256` digests a text. `exec` is the database driver: it is given the effect of a statement
-- and answers with the table after it; errors of statements are dropped by the code.
module _ (sha256 : Bytes → Bytes) (exec : (Table → Table) → Table → Table) where
  unfoldable pub hash : CacheKey → Bytes
  unfolding raw
  hash k = hex (sha256 (raw k))

  -- UPDATE cache_entries SET last_accessed = ? WHERE key_hash = ?
  abbrev pub touch_row : ℕ → Bytes → Table → Table
  touch_row now h [] = []
  touch_row now h ((j, r) ∷ t) =
      let rest = touch_row now h t in
      ite (bytes_discrete j h) ((j, record r { last_accessed = now }) ∷ rest) ((j, r) ∷ rest)

  -- `persistEntry`
  abbrev pub persist_entry : ℕ → Bytes → CacheKey → CacheEntry → Table → Table
  persist_entry now h key entry =
      exec (insert bytes_discrete h (record { key = key; stored = entry; last_accessed = now }))

  -- A pointer of `entries` that names no element of `lru` reads nothing.
  unfoldable pub get : ℕ → CacheKey → Cache → Cache × Option CacheEntry
  unfolding hash
  get now key c =
      let h = hash key in
      elim (lookup bytes_discrete h c.entries) [
        | none ↦ (record c { misses = suc c.misses }, none)
        | some e ↦ (
          record c {
            lru = move_to_front e c.lru;
            hits = suc c.hits;
            db = exec (touch_row now h) c.db;
          },
          elim (lookup ℕ_discrete e c.lru) [ none ↦ none | some item ↦ some item.entry ],
        )
      ]

  -- `for c.lru.Len() >= c.maxSize`; the fuel is the number of elements
  unfoldable pub evict : ℕ → Cache → Cache
  evict zero c = c
  evict (suc f) c = elim (leb c.max_size (length c.lru)) [
    | false ↦ c
    | true ↦ elim (get_last? c.lru) [
      | none ↦ c
      | some (e, item) ↦ evict f (record c {
        lru = delete ℕ_discrete e c.lru;
        entries = delete bytes_discrete item.key_hash c.entries;
        db = exec (delete bytes_discrete item.key_hash) c.db;
      })
    ]
  ]

  -- the end of `Put`: a new element at the front
  unfoldable pub push_front : ℕ → Bytes → CacheKey → CacheEntry → Cache → Cache
  push_front now h key entry c = record c {
    lru = (c.next_element, record { key_hash = h; entry = entry }) ∷ c.lru;
    entries = insert bytes_discrete h c.next_element c.entries;
    next_element = suc c.next_element;
    db = persist_entry now h key entry c.db;
  }

  unfoldable pub put : ℕ → CacheKey → CacheEntry → Cache → Cache
  unfolding hash evict push_front
  put now key entry c =
      let h = hash key in
      elim (lookup bytes_discrete h c.entries) [
        | some e ↦ record c {
          lru = set_entry e entry (move_to_front e c.lru);
          db = persist_entry now h key entry c.db;
        }
        | none ↦ push_front now h key entry (evict (length c.lru) c)
      ]

  -- SELECT key_hash FROM cache_entries WHERE repo_hash = ?
  abbrev pub repo_keys : Bytes → Table → List Bytes
  repo_keys repo [] = []
  repo_keys repo ((h, r) ∷ t) =
      let rest = repo_keys repo t in if bytes_eq r.key.repo_hash repo then h ∷ rest else rest

  abbrev pub in_keys : Bytes → List Bytes → Bool
  in_keys h [] = false
  in_keys h (k ∷ ks) = let rest = in_keys h ks in if bytes_eq k h then true else rest

  -- the loop over `c.entries`: each pointer whose hash was selected leaves the list and the map
  unfoldable pub remove_selected :
      List Bytes → List (Bytes × ℕ) → List (ℕ × CacheItem) → List (ℕ × CacheItem)
  remove_selected ks [] l = l
  remove_selected ks ((h, e) ∷ m) l =
      remove_selected ks m (if in_keys h ks then delete ℕ_discrete e l else l)

  -- `selected` is false when the query fails: then only the DELETE is tried.
  unfoldable pub invalidate : Bool → Bytes → Cache → Cache
  unfolding remove_selected
  invalidate selected repo c =
      let ks = repo_keys repo c.db in
      let db' = exec (keep_if (λ r. not (bytes_eq r.1.key.repo_hash repo))) c.db in
      if selected
      then record c {
        entries = keep_if (λ p. not (in_keys p.0 ks)) c.entries;
        lru = remove_selected ks c.entries c.lru;
        db = db';
      }
      else record c { db = db' }
