-- ===== src/Cache/Runs.antt =====
-- internal/cache/cache.go: sequences of calls on a cache, and the cache that `NewCache` loads.
use mathlib.Core.Path.{ap₂}
use costwise_mcp.Prelude.{
  ℕ, suc, ◌≡◌, refl, ◌∙◌, List, [], ◌∷◌, Option, Bytes, bytes_discrete, lookup,
}
use costwise_mcp.Cache
use costwise_mcp.Cache.{CacheKey, CacheEntry, CacheItem, Row, Table, Cache, hash}
use costwise_mcp.Cache.Elements.{view}
use costwise_mcp.Cache.Sync.{IsValid}
use costwise_mcp.Cache.Refinement.{
  Recent, use_entry, store_entry, get-use_entry, get-IsValid, put-IsValid, put-store_entry,
  get-max_size, put-max_size,
}

pub data Call : Type 0 where
  get : CacheKey → Call
  put : CacheKey → CacheEntry → Call

module _ (sha256 : Bytes → Bytes) (exec : (Table → Table) → Table → Table) where
  -- the calls at successive times, and what each `Get` answers
  unfoldable pub run : ℕ → List Call → Cache → Cache × List (Option CacheEntry)
  run now [] c = (c, [])
  run now (get key ∷ calls) c =
      let (d, answer) = Cache.get sha256 exec now key c in
      let (e, answers) = run (suc now) calls d in (e, answer ∷ answers)
  run now (put key entry ∷ calls) c = run (suc now) calls (Cache.put sha256 exec now key entry c)

  -- the same calls on the abstract cache
  unfoldable pub run_recent : ℕ → List Call → Recent → Recent × List (Option CacheEntry)
  run_recent max [] l = (l, [])
  run_recent max (get key ∷ calls) l =
      let h = hash sha256 exec key in
      let (m, answers) = run_recent max calls (use_entry h l) in
      (m, lookup bytes_discrete h l ∷ answers)
  run_recent max (put key entry ∷ calls) l =
      run_recent max calls (store_entry max (hash sha256 exec key) entry l)

  -- From a valid cache, any calls answer as the list of the most recent entries does, and leave
  -- a valid cache that shows the same list.
  pub run-run_recent :
      (now : ℕ) (calls : List Call) (c : Cache)
      → IsValid c
      → IsValid (run now calls c).0
        × (view (run now calls c).0.lru ≡ (run_recent c.max_size calls (view c.lru)).0)
        × ((run now calls c).1 ≡ (run_recent c.max_size calls (view c.lru)).1)
  unfolding run run_recent
  run-run_recent now [] c v = (v, refl, refl)
  run-run_recent now (get key ∷ calls) c v =
      let (answer, seen) = get-use_entry sha256 exec now key c v.sync in
      let d = (Cache.get sha256 exec now key c).0 in
      let (w, same, told) =
        run-run_recent (suc now) calls d (get-IsValid sha256 exec now key c v) in
      let size : d.max_size ≡ c.max_size = get-max_size sha256 exec now key c in
      (
        w,
        same ∙ ap₂ (λ (n : ℕ) (m : Recent). (run_recent n calls m).0) size seen,
        ap₂ ◌∷◌ answer (told ∙ ap₂ (λ (n : ℕ) (m : Recent). (run_recent n calls m).1) size seen),
      )
  run-run_recent now (put key entry ∷ calls) c v =
      let seen = put-store_entry sha256 exec now key entry c v in
      let d = Cache.put sha256 exec now key entry c in
      let (w, same, told) =
        run-run_recent (suc now) calls d (put-IsValid sha256 exec now key entry c v) in
      let size : d.max_size ≡ c.max_size = put-max_size sha256 exec now key entry c v in
      (
        w,
        same ∙ ap₂ (λ (n : ℕ) (m : Recent). (run_recent n calls m).0) size seen,
        told ∙ ap₂ (λ (n : ℕ) (m : Recent). (run_recent n calls m).1) size seen,
      )
