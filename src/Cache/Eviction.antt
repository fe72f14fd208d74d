-- ===== src/Cache/Eviction.antt =====
-- internal/cache/cache.go: the eviction loop of `Put`, and the element that it pushes.
use native.Mathlib.Decide.{ℕ_discrete}
use costwise_mcp.Prelude.{
  ℕ, zero, suc, ◌-◌, ◌≤◌, ◌<◌, ◌≡◌, refl, ap, sym, ◌∙◌, inl, inr, none, some, Bytes, bytes_discrete,
  leb, leb→le, length, take, lookup, delete, arith, Bool-cases, lookup-delete_ne,
  lookup-delete_self, delete_absent, length-take, take_of_length-le, take-take_le,
  lookup-delete-none, delete-Distinct, insert-Distinct,
}
use costwise_mcp.Cache.{CacheKey, CacheEntry, CacheItem, Table, Cache, evict, push_front}
use costwise_mcp.Cache.Elements.{
  find, pointer, find-delete_self, find-delete_ne, delete-IsLinked, delete-IsBelow, IsBelow-suc,
  IsBelow-fresh, get_last?-cell,
}
use costwise_mcp.Cache.Sync.{IsSync}

-- what the eviction loop leaves of a cache
pub record Evicted (c d : Cache) : Type 0 where
  pub sync : IsSync d
  pub lru : d.lru ≡ take (c.max_size - 1) c.lru
  pub max_size : d.max_size ≡ c.max_size
  pub next_element : d.next_element ≡ c.next_element
  pub gone :
      (h : Bytes)
      → lookup bytes_discrete h c.entries ≡ none
      → lookup bytes_discrete h d.entries ≡ none

module _ (sha256 : Bytes → Bytes) (exec : (Table → Table) → Table → Table) where
  pub Evicted-self : (c : Cache) → IsSync c → length c.lru < c.max_size → Evicted c c
  Evicted-self c s lt = record {
    sync = s;
    lru = sym (take_of_length-le (c.max_size - 1) c.lru (omega arith));
    max_size = refl;
    next_element = refl;
    gone = λ h e. e;
  }

  -- the cache after the last element is removed
  abbrev pub shorter : Cache → ℕ → Bytes → Cache
  shorter c i h = record c {
    lru = delete ℕ_discrete i c.lru;
    entries = delete bytes_discrete h c.entries;
    db = exec (delete bytes_discrete h) c.db;
  }

  pub shorter-IsSync :
      (c : Cache) (i : ℕ) (item : CacheItem)
      → IsSync c
      → find item.key_hash c.lru ≡ some (i, item)
      → IsSync (shorter c i item.key_hash)
  shorter-IsSync c i item s f = record {
    positive = s.positive;
    linked = delete-IsLinked i c.lru s.linked;
    below = delete-IsBelow c.next_element i c.lru s.below;
    unique = delete-Distinct bytes_discrete item.key_hash c.entries s.unique;
    agree = λ q. elim (bytes_discrete q item.key_hash) [
      | yes p ↦
          rw (p, find-delete_self item.key_hash c.lru s.linked f)
            (lookup-delete_self bytes_discrete item.key_hash c.entries)
      | no p ↦
          lookup-delete_ne bytes_discrete item.key_hash q c.entries p
          ∙ (s.agree q ∙ ap pointer (sym (find-delete_ne item.key_hash q c.lru s.linked f p)))
    ];
  }

  pub evict-Evicted :
      (f : ℕ) (c : Cache) → IsSync c → length c.lru ≤ f → Evicted c (evict sha256 exec f c)
  unfolding evict
  evict-Evicted zero c s h = Evicted-self c s (omega (arith, s.positive))
  evict-Evicted (suc f) c s h = elim (Bool-cases (leb c.max_size (length c.lru))) [
    | inr small ↦ rw (small, evict) (Evicted-self c s (ground arith))
    | inl full ↦
        let n = length c.lru - 1 in
        let long : c.max_size ≤ length c.lru = leb→le _ _ full in
        let e : length c.lru ≡ suc n = omega (arith, s.positive) in
        let (i, item, last, found, cut) = get_last?-cell n c.lru e s.linked in
        let d = shorter c i item.key_hash in
        let shorter_len : length d.lru ≡ n = rw cut (length-take n c.lru ∙ omega arith) in
        let r = evict-Evicted f d (shorter-IsSync c i item s found) (omega arith) in
        rw (full, last, evict)
          (record {
            sync = r.sync;
            lru =
                r.lru
                ∙ (ap (take (c.max_size - 1)) cut
                    ∙ take-take_le (c.max_size - 1) n c.lru (omega arith));
            max_size = r.max_size;
            next_element = r.next_element;
            gone = λ q m. r.gone q (lookup-delete-none bytes_discrete item.key_hash q c.entries m);
          })
  ]

  pub push-IsSync :
      (now : ℕ) (h : Bytes) (key : CacheKey) (entry : CacheEntry) (c : Cache)
      → IsSync c
      → find h c.lru ≡ none
      → lookup bytes_discrete h c.entries ≡ none
      → IsSync (push_front sha256 exec now h key entry c)
  unfolding push_front
  push-IsSync now h key entry c s f m = record {
    positive = s.positive;
    linked = (IsBelow-fresh c.next_element c.lru s.below, f, s.linked);
    below = (omega arith, IsBelow-suc c.next_element c.lru s.below);
    unique = insert-Distinct bytes_discrete h c.next_element c.entries s.unique;
    agree = λ q. ground (arith, s.agree q, delete_absent bytes_discrete h c.entries m);
  }
