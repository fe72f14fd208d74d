-- ===== src/Index/Stored.antt =====
-- internal/retrieval/indexer.go: one file of the walk, and the hash that it leaves.
use costwise_mcp.Prelude.{
  ◌≡◌, ◌≢◌, refl, ap, sym, ◌∙◌, subst, inl, inr, Bool, true, false, Option, none, some, Bytes, hex,
  bytes_eq, bytes_eq_iff, bytes_discrete, lookup, insert, Bool-cases, Option-cases,
  lookup-delete_ne,
}
use mathlib.Core.Logic.{if_pos, if_neg}
use costwise_mcp.Index.{
  IndexConfig, Parser, DiskFile, Hashes, Progress, unchanged, parse_and_store, index_file,
}
use costwise_mcp.Index.Database.{Tables, Statement}
use costwise_mcp.Index.Files.{parse_and_store_hash}

lookup-insert_self :
    (k v : Bytes) (m : Hashes) → lookup bytes_discrete k (insert bytes_discrete k v m) ≡ some v
lookup-insert_self k v m = if_pos (bytes_discrete k k) refl _ _

lookup-insert_ne :
    (k q v : Bytes) (m : Hashes)
    → q ≢ k
    → lookup bytes_discrete q (insert bytes_discrete k v m) ≡ lookup bytes_discrete q m
lookup-insert_ne k q v m h =
    if_neg (bytes_discrete k q) (λ e. h (sym e)) _ _ ∙ lookup-delete_ne bytes_discrete k q m h

module _ (sha256 : Bytes → Bytes) where
  -- a file that can be read stands under its path with the hash of its content
  abbrev pub IsStored : Hashes → DiskFile → Type 0
  IsStored hashes f = elim f.content [
    | none ↦ Unit
    | some content ↦ lookup bytes_discrete f.rel_path hashes ≡ some (hex (sha256 content))
  ]

  pub IsStored-some :
      (hashes : Hashes) (f : DiskFile) (content : Bytes)
      → f.content ≡ some content
      → IsStored hashes f
      → lookup bytes_discrete f.rel_path hashes ≡ some (hex (sha256 content))
  IsStored-some hashes f content good stored =
      subst
        (λ (o : Option Bytes). elim o [
          | none ↦ Unit
          | some c ↦ lookup bytes_discrete f.rel_path hashes ≡ some (hex (sha256 c))
        ])
        good stored

  pub IsStored-lookup :
      (h h' : Hashes) (f : DiskFile)
      → lookup bytes_discrete f.rel_path h' ≡ lookup bytes_discrete f.rel_path h
      → IsStored h f
      → IsStored h' f
  IsStored-lookup h h' f same stored = elim (Option-cases f.content) [
    | inl bad ↦ rw bad tt
    | inr (content, good) ↦ rw good (same ∙ IsStored-some h f content good stored)
  ]

module _ (sha256 : Bytes → Bytes) (refuses : Statement → Tables → Bool)
    (accepts : (s : Statement) (t : Tables) → refuses s t ≡ false) (parser : Parser)
    (config : IndexConfig) where
  -- One file is handled without an error, and the hashes of the other paths stay.
  pub index_file_frame :
      (existing : Hashes) (f : DiskFile) (p : Progress) (path : Bytes)
      → path ≢ f.rel_path
      → let (q, ok) = index_file sha256 refuses parser config existing f p in
        (ok ≡ true)
        × (lookup bytes_discrete path q.tables.files ≡ lookup bytes_discrete path p.tables.files)
  unfolding index_file parse_and_store
  index_file_frame existing f p path other = elim (Option-cases f.content) [
    | inl bad ↦ rw bad (refl, refl)
    | inr (content, good) ↦
        elim (Bool-cases
          (unchanged sha256 refuses parser config existing f.rel_path (hex (sha256 content)))) [
            | inl old ↦ rw (good, old) (refl, refl)
            | inr new ↦
                let (ok, files) =
                  parse_and_store_hash sha256 refuses accepts parser config f (hex (sha256 content))
                    p.tables in
                rw (good, new, ok)
                  (
                    refl,
                    rw files (
                        lookup-insert_ne f.rel_path path (hex (sha256 content)) p.tables.files
                          other),
                  )
          ]
  ]

  pub unchanged-lookup :
      (existing : Hashes) (rel hash : Bytes)
      → unchanged sha256 refuses parser config existing rel hash ≡ true
      → lookup bytes_discrete rel existing ≡ some hash
  unchanged-lookup existing rel hash h = elim (Option-cases (lookup bytes_discrete rel existing)) [
    | inl free ↦ cc (
        subst
          (λ (o : Option Bytes). (elim o [ none ↦ false | some old ↦ bytes_eq old hash ]) ≡ true)
          free h)
    | inr (old, there) ↦
        there
        ∙ ap some (
            (bytes_eq_iff old hash).0 (
              subst
                (λ (o : Option Bytes). (elim o [ none ↦ false | some d ↦ bytes_eq d hash ]) ≡ true)
                there h))
  ]

  -- One file that the table agrees on with the hashes loaded before is stored then.
  pub index_file-IsStored :
      (existing : Hashes) (f : DiskFile) (p : Progress)
      → lookup bytes_discrete f.rel_path p.tables.files ≡ lookup bytes_discrete f.rel_path existing
      → let (q, ok) = index_file sha256 refuses parser config existing f p in
        (ok ≡ true) × IsStored sha256 q.tables.files f
  unfolding index_file parse_and_store
  index_file-IsStored existing f p agree = elim (Option-cases f.content) [
    | inl bad ↦ rw bad (refl, tt)
    | inr (content, good) ↦
        elim (Bool-cases
          (unchanged sha256 refuses parser config existing f.rel_path (hex (sha256 content)))) [
            | inl old ↦
                rw (good, old)
                  (refl, agree ∙ unchanged-lookup existing f.rel_path (hex (sha256 content)) old)
            | inr new ↦
                let (ok, files) =
                  parse_and_store_hash sha256 refuses accepts parser config f (hex (sha256 content))
                    p.tables in
                rw (good, new, ok)
                  (
                    refl,
                    rw files (lookup-insert_self f.rel_path (hex (sha256 content)) p.tables.files),
                  )
          ]
  ]
