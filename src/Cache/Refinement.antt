-- ===== src/Cache/Refinement.antt =====
-- internal/cache/cache.go: `Get` and `Put` against a plain list of entries, the most recent first.
use costwise_mcp.Prelude.{
  ℕ, suc, ◌-◌, ◌≡◌, refl, ap, sym, ◌∙◌, inl, inr, List, ◌∷◌, none, some, Bytes, bytes_discrete,
  length, take, lookup, delete, arith, Option-cases, delete_absent, length-take, take_of_length-le,
  take_pos,
}
use costwise_mcp.Cache.{
  CacheKey, CacheEntry, CacheItem, Table, Cache, hash, get, put, evict, push_front, set_entry,
  persist_entry, touch_row,
}
use costwise_mcp.Cache.Elements.{
  Elements, find, view, length-view, view-take, find-none-view, find-some-view, find-cell,
}
use costwise_mcp.Cache.Sync.{
  IsSync, IsValid, pointer-none, to_front, set_front, moved, length-moved, view-moved, moved-IsSync,
  hit-cell, miss-cell,
}
use costwise_mcp.Cache.Eviction.{Evicted, evict-Evicted, push-IsSync}

-- the abstract cache: a list of hashes with their entries
abbrev pub Recent : Type 0
Recent = List (Bytes × CacheEntry)

unfoldable pub use_entry : Bytes → Recent → Recent
use_entry h l = elim (lookup bytes_discrete h l) [
  | none ↦ l
  | some v ↦ (h, v) ∷ delete bytes_discrete h l
]

unfoldable pub store_entry : ℕ → Bytes → CacheEntry → Recent → Recent
store_entry max h v l = take max ((h, v) ∷ delete bytes_discrete h l)

module _ (sha256 : Bytes → Bytes) (exec : (Table → Table) → Table → Table) where
  module _ (now : ℕ) (key : CacheKey) (c : Cache) (s : IsSync c) where
    abbrev pub key_hash : Bytes
    key_hash = hash sha256 exec key

    get_hit :
        (i : ℕ) (item : CacheItem)
        → lookup bytes_discrete key_hash c.entries ≡ some i
        → find key_hash c.lru ≡ some (i, item)
        → get sha256 exec now key c ≡ (
          record c {
            lru = moved key_hash c.lru i item item.entry;
            hits = suc c.hits;
            db = exec (touch_row sha256 exec now key_hash) c.db;
          },
          some item.entry,
        )
    unfolding get
    get_hit i item e f =
        let w = find-cell key_hash c.lru s.linked f in rw (e, get) (cc (w, to_front i c.lru w))

    get_miss :
        lookup bytes_discrete key_hash c.entries ≡ none
        → get sha256 exec now key c ≡ (record c { misses = suc c.misses }, none)
    unfolding get
    get_miss e = rw (e, get)

    -- What `Get` answers is the entry of the list, and a hit moves it to the front.
    pub get-use_entry :
        ((get sha256 exec now key c).1 ≡ lookup bytes_discrete key_hash (view c.lru))
        × (view (get sha256 exec now key c).0.lru ≡ use_entry key_hash (view c.lru))
    unfolding use_entry
    get-use_entry = elim (Option-cases (lookup bytes_discrete key_hash c.entries)) [
      | inl e ↦
          let f = find-none-view key_hash c.lru (miss-cell c key_hash s e) in
          rw (get_miss e) (sym f, rw (f, use_entry))
      | inr (i, e) ↦
          let (item, f) = hit-cell c key_hash i s e in
          let v = find-some-view key_hash c.lru f in
          rw (get_hit i item e f)
            (sym v, view-moved key_hash c.lru i item item.entry s.linked f ∙ rw (v, use_entry))
    ]

    get_parts : IsValid c → IsValid (get sha256 exec now key c).0
    get_parts v = elim (Option-cases (lookup bytes_discrete key_hash c.entries)) [
      | inl e ↦ rw (get_miss e) (record {
        sync = record {
          positive = s.positive;
          linked = s.linked;
          below = s.below;
          unique = s.unique;
          agree = s.agree;
        };
        bounded = v.bounded;
      })
      | inr (i, e) ↦
          let (item, f) = hit-cell c key_hash i s e in
          rw (get_hit i item e f) (record {
            sync = moved-IsSync key_hash c.lru i item item.entry c refl s f _ refl refl refl refl;
            bounded =
                omega (arith, length-moved key_hash c.lru i item item.entry s.linked f, v.bounded);
          })
    ]

    put_hit :
        (entry : CacheEntry) (i : ℕ) (item : CacheItem)
        → lookup bytes_discrete key_hash c.entries ≡ some i
        → find key_hash c.lru ≡ some (i, item)
        → put sha256 exec now key entry c ≡ record c {
          lru = moved key_hash c.lru i item entry;
          db = persist_entry sha256 exec now key_hash key entry c.db;
        }
    unfolding put
    put_hit entry i item e f =
        let w = find-cell key_hash c.lru s.linked f in
        rw (e, put) (cc (set_front i item entry c.lru, ap (set_entry i entry) (to_front i c.lru w)))

    put_miss :
        (entry : CacheEntry)
        → lookup bytes_discrete key_hash c.entries ≡ none
        → put sha256 exec now key entry c
          ≡ push_front sha256 exec now key_hash key entry (evict sha256 exec (length c.lru) c)
    unfolding put
    put_miss entry e = rw (e, put)

  module _ (now : ℕ) (key : CacheKey) (entry : CacheEntry) (c : Cache) (v : IsValid c) where
    -- the end of a `Put` of a new key: the room is made, then the new element is pushed
    put-pushed :
        (d : Cache)
        → Evicted c d
        → find (hash sha256 exec key) c.lru ≡ none
        → lookup bytes_discrete (hash sha256 exec key) c.entries ≡ none
        → IsValid (push_front sha256 exec now (hash sha256 exec key) key entry d)
          × (view (push_front sha256 exec now (hash sha256 exec key) key entry d).lru
              ≡ store_entry c.max_size (hash sha256 exec key) entry (view c.lru))
          × (d.max_size ≡ c.max_size)
    unfolding push_front store_entry
    put-pushed d r f m =
        let h = hash sha256 exec key in
        let s =
          push-IsSync sha256 exec now h key entry d r.sync
            (pointer-none (find h d.lru) (sym (r.sync.agree h) ∙ r.gone h m)) (r.gone h m) in
        (
          record {
            sync = s;
            bounded = omega (
              arith,
              ap length r.lru,
              length-take (c.max_size - 1) c.lru,
              r.max_size,
              v.sync.positive,
            );
          },
          ap (λ (l : Elements). (h, entry) ∷ view l) r.lru
              ∙ (ap (◌∷◌ (h, entry)) (view-take (c.max_size - 1) c.lru)
                  ∙ rw (delete_absent bytes_discrete h (view c.lru) (find-none-view h c.lru f))
                      (sym (take_pos c.max_size (h, entry) (view c.lru) v.sync.positive))),
          r.max_size,
        )

    put_parts :
        IsValid (put sha256 exec now key entry c)
        × (view (put sha256 exec now key entry c).lru
            ≡ store_entry c.max_size (hash sha256 exec key) entry (view c.lru))
        × ((put sha256 exec now key entry c).max_size ≡ c.max_size)
    unfolding store_entry push_front evict
    put_parts =
        let h = hash sha256 exec key in
        elim (Option-cases (lookup bytes_discrete h c.entries)) [
          | inl e ↦
              let f = miss-cell c h v.sync e in
              rw (put_miss now key c v.sync entry e) (
                put-pushed (evict sha256 exec (length c.lru) c)
                  (evict-Evicted sha256 exec (length c.lru) c v.sync (omega arith)) f e)
          | inr (i, e) ↦
              let (item, f) = hit-cell c h i v.sync e in
              let w = v.sync.linked in
              let same = length-moved h c.lru i item entry w f in
              let seen = view-moved h c.lru i item entry w f in
              rw (put_hit now key c v.sync entry i item e f) (
                record {
                  sync = moved-IsSync h c.lru i item entry c refl v.sync f _ refl refl refl refl;
                  bounded = omega (arith, same, v.bounded);
                },
                seen
                    ∙ sym (
                        take_of_length-le c.max_size _ (
                          omega (
                            arith,
                            ap length seen,
                            length-view (moved h c.lru i item entry),
                            same,
                            v.bounded,
                          ))),
                refl,
              )
        ]

    -- `Put` keeps the cache valid: the map and the list agree, and the bound holds.
    pub put-IsValid : IsValid (put sha256 exec now key entry c)
    put-IsValid = put_parts.0

    -- `Put` puts the entry first and keeps the most recent others that fit.
    pub put-store_entry :
        (view (put sha256 exec now key entry c).lru
          ≡ store_entry c.max_size (hash sha256 exec key) entry (view c.lru))
    put-store_entry = put_parts.1

    pub put-max_size : (put sha256 exec now key entry c).max_size ≡ c.max_size
    put-max_size = put_parts.2

  -- `Get` keeps the cache valid.
  pub get-IsValid :
      (now : ℕ) (key : CacheKey) (c : Cache) → IsValid c → IsValid (get sha256 exec now key c).0
  get-IsValid now key c v = get_parts now key c v.sync v

  pub get-max_size :
      (now : ℕ) (key : CacheKey) (c : Cache) → (get sha256 exec now key c).0.max_size ≡ c.max_size
  unfolding get
  get-max_size now key c = ground arith
