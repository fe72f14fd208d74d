-- ===== src/Cache/Rows.antt =====
-- internal/cache/cache.go: the loop of `loadFromDB` at the end of the list.
use native.Mathlib.Decide.{ℕ_discrete}
use costwise_mcp.Prelude.{
  ℕ, suc, ◌<◌, ◌≡◌, ◌≢◌, refl, ap, sym, ◌∙◌, [], ◌∷◌, ◌++◌, none, Bytes, bytes_discrete, lookup,
  insert, arith, map, All, append-nil, append_assoc, lookup-delete_ne, Distinct, insert-Distinct,
}
use costwise_mcp.Cache.{CacheItem, Row, Table, Cache, load_rows}
use costwise_mcp.Cache.Elements.{Elements, find, view, IsLinked, IsBelow, IsBelow-suc}
use costwise_mcp.Cache.Sync.{IsSync}
use costwise_mcp.Cache.Refinement.{Recent}

-- The rows that `NewCache` reads become a cache whose map and list agree.
find-append :
    (h : Bytes) (l : Elements) (i : ℕ) (item : CacheItem)
    → find h l ≡ none
    → find h (l ++ (i, item) ∷ []) ≡ find h ((i, item) ∷ [])
find-append h [] i item e = refl
find-append h ((j, other) ∷ l) i item e = ground (arith, find-append h l i item)

find-append_found :
    (h : Bytes) (l : Elements) (i : ℕ) (item : CacheItem)
    → item.key_hash ≢ h
    → find h (l ++ (i, item) ∷ []) ≡ find h l
find-append_found h [] i item e = ground arith
find-append_found h ((j, other) ∷ l) i item e = ground (arith, find-append_found h l i item)

lookup-append_ne :
    (j : ℕ) (l : Elements) (i : ℕ) (item : CacheItem)
    → lookup ℕ_discrete j l ≡ none
    → i ≢ j
    → lookup ℕ_discrete j (l ++ (i, item) ∷ []) ≡ none
lookup-append_ne j [] i item e ne = ground arith
lookup-append_ne j ((k, other) ∷ l) i item e ne = ground (arith, lookup-append_ne j l i item)

append-IsLinked :
    (l : Elements) (i : ℕ) (item : CacheItem)
    → IsLinked l
    → IsBelow i l
    → find item.key_hash l ≡ none
    → IsLinked (l ++ (i, item) ∷ [])
append-IsLinked [] i item w b f = (refl, refl, tt)
append-IsLinked ((j, other) ∷ l) i item w b f = elim (bytes_discrete other.key_hash item.key_hash) [
  | yes p ↦ absurd (ground arith)
  | no p ↦ (
    lookup-append_ne j l i item w.0 (omega (arith, b.0)),
    find-append_found other.key_hash l i item (λ e. p (sym e)) ∙ w.1,
    append-IsLinked l i item w.2 b.1 (ground arith),
  )
]

append-IsBelow :
    (n i : ℕ) (l : Elements) (item : CacheItem)
    → IsBelow n l
    → i < n
    → IsBelow n (l ++ (i, item) ∷ [])
append-IsBelow n i [] item b lt = (lt, tt)
append-IsBelow n i (x ∷ l) item b lt = (b.0, append-IsBelow n i l item b.1 lt)

view-append : (l m : Elements) → view (l ++ m) ≡ view l ++ view m
view-append [] m = refl
view-append ((i, item) ∷ l) m = ap (◌∷◌ (item.key_hash, item.entry)) (view-append l m)

-- no row of the table is in the list yet
abbrev pub IsNew : Elements → Table → Type 0
IsNew l = All (λ r. find r.0 l ≡ none)

append-IsNew :
    (l : Elements) (i : ℕ) (item : CacheItem) (t : Table)
    → lookup bytes_discrete item.key_hash t ≡ none
    → IsNew l t
    → IsNew (l ++ (i, item) ∷ []) t
append-IsNew l i item [] e n = tt
append-IsNew l i item ((h, r) ∷ t) e n = elim (bytes_discrete h item.key_hash) [
  | yes p ↦ absurd (ground arith)
  | no p ↦ (
    find-append_found h l i item (λ q. p (sym q)) ∙ n.0,
    append-IsNew l i item t (ground arith) n.1,
  )
]

abbrev pub stored_entries : Table → Recent
stored_entries = map (λ r. (r.0, r.1.stored))

push_back : Bytes → Row → Cache → Cache
push_back h r c = record c {
  lru = c.lru ++ (c.next_element, record { key_hash = h; entry = r.stored }) ∷ [];
  entries = insert bytes_discrete h c.next_element c.entries;
  next_element = suc c.next_element;
}

push_back-IsSync :
    (h : Bytes) (r : Row) (c : Cache) → IsSync c → find h c.lru ≡ none → IsSync (push_back h r c)
unfolding push_back
push_back-IsSync h r c s f =
    let item : CacheItem = record { key_hash = h; entry = r.stored } in
    record {
      positive = s.positive;
      linked = append-IsLinked c.lru c.next_element item s.linked s.below f;
      below =
          append-IsBelow (suc c.next_element) c.next_element c.lru item
            (IsBelow-suc c.next_element c.lru s.below) (omega arith);
      unique = insert-Distinct bytes_discrete h c.next_element c.entries s.unique;
      agree = λ q. elim (bytes_discrete h q) [
        | yes p ↦ ground (arith, find-append q c.lru c.next_element item)
        | no p ↦ ground (
          arith,
          s.agree q,
          find-append_found q c.lru c.next_element item,
          lookup-delete_ne bytes_discrete h q c.entries,
        )
      ];
    }

pub load_rows_lem :
    (t : Table) (c : Cache)
    → IsSync c
    → Distinct bytes_discrete t
    → IsNew c.lru t
    → IsSync (load_rows t c)
      × (view (load_rows t c).lru ≡ view c.lru ++ stored_entries t)
      × ((load_rows t c).max_size ≡ c.max_size)
unfolding load_rows push_back
load_rows_lem [] c s d n = (s, sym (append-nil (view c.lru)), refl)
load_rows_lem ((h, r) ∷ t) c s d n =
    let item : CacheItem = record { key_hash = h; entry = r.stored } in
    let (s', seen, size) =
      load_rows_lem t (push_back h r c) (push_back-IsSync h r c s n.0) d.1
        (append-IsNew c.lru c.next_element item t d.0 n.1) in
    (
      s',
      seen
          ∙ (ap (λ l. l ++ stored_entries t) (view-append c.lru ((c.next_element, item) ∷ []))
              ∙ append_assoc (view c.lru) ((h, r.stored) ∷ []) (stored_entries t)),
      size,
    )
