-- ===== src/Index/Tombstones.antt =====
-- internal/retrieval/indexer.go: a second clean-up behind the first.
use mathlib.Core.Logic.{if_pos, if_neg}
use costwise_mcp.Prelude.{
  ℕ, suc, ◌+◌, ◌≡◌, refl, ap, sym, ◌∙◌, inl, inr, Bool, true, false, List, [], ◌∷◌, some, Bytes,
  bytes_discrete, if◌then◌else◌, lookup, delete, insert, All, Bool-cases, lookup-delete_ne,
  delete_absent, Distinct, insert-Distinct, length,
}
use costwise_mcp.Index.{IndexConfig, IndexResult, Parser, Hashes, Progress, seen_in, clean_up}
use costwise_mcp.Index.Database.{Tables, Statement}
use costwise_mcp.Index.Cleanup.{missing, without, without_all, clean_up-without_all}

-- the path has a row
abbrev IsPresent : Hashes → Bytes → Type 0
IsPresent m q = (v : Bytes) × (lookup bytes_discrete q m ≡ some v)

IsPresent-cons : (k v : Bytes) (m : Hashes) (q : Bytes) → IsPresent m q → IsPresent ((k, v) ∷ m) q
IsPresent-cons k v m q (w, there) = elim (bytes_discrete k q) [
  | yes same ↦ (v, if_pos (bytes_discrete k q) same _ _)
  | no other ↦ (w, if_neg (bytes_discrete k q) other _ _ ∙ there)
]

IsPresent-insert :
    (k v : Bytes) (m : Hashes) (q : Bytes)
    → IsPresent m q
    → IsPresent (insert bytes_discrete k v m) q
IsPresent-insert k v m q (w, there) = elim (bytes_discrete k q) [
  | yes same ↦ (v, if_pos (bytes_discrete k q) same _ _)
  | no other ↦ (
    w,
    if_neg (bytes_discrete k q) other _ _
        ∙ (lookup-delete_ne bytes_discrete k q m (λ e. other (sym e)) ∙ there),
  )
]

module _ (seen : List Bytes) where
  missing-cons :
      (k v : Bytes) (m : Hashes)
      → length (missing ((k, v) ∷ m) seen)
        ≡ (if seen_in k seen then length (missing m seen) else suc (length (missing m seen)))
  missing-cons k v m = elim (Bool-cases (seen_in k seen)) [
    | inl there ↦ rw there refl
    | inr gone ↦ rw gone refl
  ]

  exchange :
      (a b : Bool) (n : ℕ)
      → (if a then (if b then n else suc n) else suc (if b then n else suc n))
        ≡ (if b then (if a then n else suc n) else suc (if a then n else suc n))
  exchange true true n = refl
  exchange true false n = refl
  exchange false true n = refl
  exchange false false n = refl

  -- An emptied row is missing as the row before it was.
  missing-insert :
      (k v : Bytes) (m : Hashes)
      → Distinct bytes_discrete m
      → IsPresent m k
      → length (missing (insert bytes_discrete k v m) seen) ≡ length (missing m seen)
  missing-insert k v [] distinct (w, there) = absurd (cc there)
  missing-insert k v ((j, u) ∷ m) (free, distinct) (w, there) = elim (bytes_discrete j k) [
    | yes same ↦
        ap (λ (d : Hashes). length (missing ((k, v) ∷ d) seen))
          (if_pos (bytes_discrete j k) same _ _
            ∙ (ap (λ (x : Bytes). delete bytes_discrete x m) (sym same)
                ∙ delete_absent bytes_discrete j m free))
        ∙ (missing-cons k v m
            ∙ (ap
                  (λ (x : Bytes).
                    if seen_in x seen
                    then length (missing m seen)
                    else suc (length (missing m seen)))
                  (sym same)
                ∙ sym (missing-cons j u m)))
    | no other ↦
        let d = delete bytes_discrete k m in
        let below : IsPresent m k = (
          w,
          sym (if_neg (bytes_discrete j k) other (some u) (lookup bytes_discrete k m)) ∙ there,
        ) in
        let rest = sym (missing-cons k v d) ∙ missing-insert k v m distinct below in
        ap (λ (x : Hashes). length (missing ((k, v) ∷ x) seen))
          (if_neg (bytes_discrete j k) other _ ((j, u) ∷ d))
        ∙ (missing-cons k v ((j, u) ∷ d)
            ∙ (ap (λ (n : ℕ). if seen_in k seen then n else suc n) (missing-cons j u d)
                ∙ (exchange (seen_in k seen) (seen_in j seen) (length (missing d seen))
                    ∙ (ap (λ (n : ℕ). if seen_in j seen then n else suc n) rest
                        ∙ sym (missing-cons j u m)))))
  ]

  AllPresent-cons :
      (k v : Bytes) (m : Hashes) (ps : List Bytes)
      → All (IsPresent m) ps
      → All (IsPresent ((k, v) ∷ m)) ps
  AllPresent-cons k v m [] h = tt
  AllPresent-cons k v m (p ∷ ps) (there, h) =
      (IsPresent-cons k v m p there, AllPresent-cons k v m ps h)

  AllPresent-insert :
      (k v : Bytes) (m : Hashes) (ps : List Bytes)
      → All (IsPresent m) ps
      → All (IsPresent (insert bytes_discrete k v m)) ps
  AllPresent-insert k v m [] h = tt
  AllPresent-insert k v m (p ∷ ps) (there, h) =
      (IsPresent-insert k v m p there, AllPresent-insert k v m ps h)

  missing-IsPresent : (m : Hashes) → All (IsPresent m) (missing m seen)
  missing-IsPresent [] = tt
  missing-IsPresent ((k, v) ∷ m) = elim (Bool-cases (seen_in k seen)) [
    | inl there ↦ rw there (AllPresent-cons k v m (missing m seen) (missing-IsPresent m))
    | inr gone ↦ rw gone (
      (v, if_pos (bytes_discrete k k) refl _ _),
      AllPresent-cons k v m (missing m seen) (missing-IsPresent m),
    )
  ]

  missing-without_all :
      (ps : List Bytes) (t : Tables)
      → Distinct bytes_discrete t.files
      → All (IsPresent t.files) ps
      → length (missing (without_all ps t).files seen) ≡ length (missing t.files seen)
  unfolding without_all without
  missing-without_all [] t distinct present = refl
  missing-without_all (p ∷ ps) t distinct (there, present) =
      missing-without_all ps (without p t) (insert-Distinct bytes_discrete p [] t.files distinct)
        (AllPresent-insert p [] t.files ps present)
      ∙ missing-insert p [] t.files distinct there

module _ (sha256 : Bytes → Bytes) (refuses : Statement → Tables → Bool)
    (accepts : (s : Statement) (t : Tables) → refuses s t ≡ false) (parser : Parser)
    (config : IndexConfig) where
  -- With a database that accepts every statement and no path stored twice, a second clean-up with
  -- the hashes that the first left counts as many deleted files as the first, although the first
  -- has removed their rows.
  pub clean_up-clean_up :
      (seen : List Bytes) (p : Progress) (result : IndexResult)
      → Distinct bytes_discrete p.tables.files
      → let q = (clean_up sha256 refuses parser config p.tables.files seen p).0 in
        let again : Progress = record { tables = q.tables; result = result } in
        let r = (clean_up sha256 refuses parser config q.tables.files seen again).0 in
        (q.result.deleted ≡ p.result.deleted + length (missing p.tables.files seen))
        × (r.result.deleted ≡ result.deleted + length (missing p.tables.files seen))
  clean_up-clean_up seen p result distinct =
      let q = (clean_up sha256 refuses parser config p.tables.files seen p).0 in
      let again : Progress = record { tables = q.tables; result = result } in
      let (_, tables, first) =
        clean_up-without_all sha256 refuses accepts parser config p.tables.files seen p in
      let (_, _, second) =
        clean_up-without_all sha256 refuses accepts parser config q.tables.files seen again in
      let same : length (missing q.tables.files seen) ≡ length (missing p.tables.files seen) =
        ap (λ (t : Tables). length (missing t.files seen)) tables
        ∙ missing-without_all seen (missing p.tables.files seen) p.tables distinct
            (missing-IsPresent seen p.tables.files) in
      (
        ap (λ (x : IndexResult). x.deleted) first,
        ap (λ (x : IndexResult). x.deleted) second ∙ ap (λ (n : ℕ). result.deleted + n) same,
      )
