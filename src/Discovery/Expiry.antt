-- ===== src/Discovery/Expiry.antt =====
-- internal/discovery_memory/discovery_memory.go: how long a stored result is found.
use mathlib.Core.Option.{some-injective}
use costwise_mcp.Prelude.{
  ℕ, ◌-◌, ◌*◌, ◌/◌, ◌≡◌, refl, sym, ap, ◌∙◌, inl, inr, true, false, not, ◌&&◌, List, [], ◌∷◌,
  Option, none, some, Bytes, bytes_eq, ltb, if◌then◌else◌, keep_if, arith, Bool-cases,
}
use costwise_mcp.Discovery.{
  Row, DiscoveryMemory, ToolResult, expired, found, second, or_day, is_asked, newest, is_expired,
  purge, store, answer, lookup_tool,
}

-- what is not expired to the nanosecond is not expired in whole seconds
kept_by_purge :
    (now : ℕ) (r : Row)
    → is_expired now r ≡ false
    → ltb r.ttl_secs (now / second - r.created_at) ≡ false
kept_by_purge now r fresh = ground arith

newest-purge :
    (now : ℕ) (query tool : Bytes) (rows : List Row) (r : Row)
    → newest query tool rows ≡ some r
    → is_expired now r ≡ false
    → newest query tool (keep_if (λ q. not (ltb q.ttl_secs (now / second - q.created_at))) rows)
      ≡ some r
newest-purge now query tool [] r there fresh = cc
newest-purge now query tool (q ∷ rows) r there fresh = elim (Bool-cases (is_asked query tool q)) [
  | inl asked ↦
      let same : q ≡ r = some-injective q r (rw asked at there) in
      let kept = kept_by_purge now q (ap (is_expired now) same ∙ fresh) in
      rw (kept, asked) (ap some same)
  | inr other ↦
      let rest = newest-purge now query tool rows r (rw other at there) fresh in
      elim (Bool-cases (ltb q.ttl_secs (now / second - q.created_at))) [
        | inl gone ↦ rw gone rest
        | inr kept ↦ rw (kept, other) rest
      ]
]

module _ (to_json : List Bytes → List Bytes → Option Bytes)
    (of_json : Bytes → Option (List Bytes × List Bytes)) where
  answer-found :
      (now : ℕ) (o : Option Row) (result : ToolResult)
      → answer to_json of_json now o ≡ found result
      → (r : Row) × (o ≡ some r) × (is_expired now r ≡ false)
  answer-found now none result h = cc
  answer-found now (some r) result h = elim (Bool-cases (is_expired now r)) [
    | inl late ↦ absurd (cc (rw late at h))
    | inr fresh ↦ (r, refl, fresh)
  ]

  -- A purge leaves every result that `Lookup` finds at that time.
  pub lookup_tool-purge :
      (now : ℕ) (query tool : Bytes) (m : DiscoveryMemory) (result : ToolResult)
      → lookup_tool to_json of_json now query tool m ≡ found result
      → lookup_tool to_json of_json now query tool (purge now m) ≡ found result
  unfolding lookup_tool purge
  lookup_tool-purge now query tool m result h =
      let (r, there, fresh) = answer-found now (newest query tool m.rows) result h in
      rw (newest-purge now query tool m.rows r there fresh)
        (ap (answer to_json of_json now) (sym there) ∙ h)

  -- Behind a successful `Store`, `Lookup` finds the result under its query and tool until as many
  -- seconds have passed since the second of the call as the time to live has, a day if it is 0, and
  -- then that it is expired, whatever was stored before; under others it finds what it found.
  pub lookup_tool-store :
      (now later : ℕ) (query tool query' tool' : Bytes) (files snippets : List Bytes)
      (confidence ttl : ℕ) (m : DiscoveryMemory) (payload : Bytes)
      → to_json files snippets ≡ some payload
      → of_json payload ≡ some (files, snippets)
      → lookup_tool to_json of_json later query' tool'
          (store to_json of_json true now query tool files snippets confidence ttl m).0
        ≡ (if bytes_eq query query' && bytes_eq tool tool'
            then (if ltb (or_day ttl / second * second) (later - now / second * second)
                then expired
                else found (record {
                  query = query;
                  tool = tool;
                  files = files;
                  snippets = snippets;
                  confidence = confidence;
                  created_at = now / second * second;
                  ttl = or_day ttl / second * second;
                }))
            else lookup_tool to_json of_json later query' tool' m)
  unfolding lookup_tool store
  lookup_tool-store now later query tool query' tool' files snippets confidence ttl m payload
        written read =
      rw (written, store)
        (elim (Bool-cases (bytes_eq query query' && bytes_eq tool tool')) [
          | inl asked ↦ rw (asked, read) refl
          | inr other ↦ rw other refl
        ])
