-- ===== src/Cache/Invalidation.antt =====
-- internal/cache/cache.go: `Invalidate`, the removal of the entries of one repository.
use costwise_mcp.Prelude.{
  ◌≡◌, refl, ap, ◌∙◌, inl, inr, Bool, true, false, not, List, [], ◌∷◌, Bytes, keep_if, Bool-cases,
  if◌then◌else◌, bytes_eq, ◌&&◌, ◌||◌,
}
use costwise_mcp.Cache.{CacheEntry, Table, Cache, invalidate, repo_keys, in_keys}
use costwise_mcp.Cache.Elements.{view}
use costwise_mcp.Cache.Sync.{IsValid}
use costwise_mcp.Cache.Staying.{
  All-found, cleared-IsValid, kept-staying, remove_selected-keep_if, view-staying,
}

-- the table has a row of the repository under the hash
abbrev pub has_row : Bytes → Bytes → Table → Bool
has_row repo h [] = false
has_row repo h ((j, r) ∷ t) = (bytes_eq j h && bytes_eq r.key.repo_hash repo) || has_row repo h t

module _ (sha256 : Bytes → Bytes) (exec : (Table → Table) → Table → Table) where
  in_keys-repo_keys :
      (h repo : Bytes) (t : Table)
      → in_keys sha256 exec h (repo_keys sha256 exec repo t) ≡ has_row repo h t
  in_keys-repo_keys h repo [] = refl
  in_keys-repo_keys h repo ((j, r) ∷ t) =
      let rest = in_keys-repo_keys h repo t in
      elim (Bool-cases (bytes_eq r.key.repo_hash repo)) [
        | inl mine ↦ elim (Bool-cases (bytes_eq j h)) [
          | inl same ↦ rw (mine, same) refl
          | inr other ↦ rw (mine, other) rest
        ]
        | inr not_mine ↦ elim (Bool-cases (bytes_eq j h)) [
          | inl same ↦ rw (not_mine, same) rest
          | inr other ↦ rw (not_mine, other) rest
        ]
      ]

  keep_if-has_row :
      (repo : Bytes) (t : Table) (m : List (Bytes × CacheEntry))
      → keep_if (λ p. not (in_keys sha256 exec p.0 (repo_keys sha256 exec repo t))) m
        ≡ keep_if (λ p. not (has_row repo p.0 t)) m
  keep_if-has_row repo t [] = refl
  keep_if-has_row repo t ((h, e) ∷ m) =
      rw (in_keys-repo_keys h repo t, keep_if-has_row repo t m) refl

  -- `Invalidate` keeps a valid cache valid. If the query for the keys is answered, what it removes
  -- from the memory are exactly the entries whose hash the table has in a row of the repository,
  -- and the others stay in their order; if the query fails, the memory keeps all its entries.
  pub invalidate-view :
      (selected : Bool) (repo : Bytes) (c : Cache)
      → IsValid c
      → IsValid (invalidate sha256 exec selected repo c)
        × (view (invalidate sha256 exec selected repo c).lru ≡ (
            if selected
            then keep_if (λ p. not (has_row repo p.0 c.db)) (view c.lru)
            else view c.lru))
  unfolding invalidate
  invalidate-view false repo c v = (
    record {
      sync = record {
        positive = v.sync.positive;
        linked = v.sync.linked;
        below = v.sync.below;
        unique = v.sync.unique;
        agree = v.sync.agree;
      };
      bounded = v.bounded;
    },
    refl,
  )
  invalidate-view true repo c v =
      let ks = repo_keys sha256 exec repo c.db in
      let gone = remove_selected-keep_if sha256 exec ks c.entries c.lru in
      let left =
        kept-staying sha256 exec ks c c.lru v.sync (All-found sha256 exec ks c.lru v.sync.linked) in
      (
        cleared-IsValid sha256 exec ks c _ v refl refl (gone ∙ left) refl,
        ap view (gone ∙ left)
            ∙ (view-staying sha256 exec ks c.lru ∙ keep_if-has_row repo c.db (view c.lru)),
      )
