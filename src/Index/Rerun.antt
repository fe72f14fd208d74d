-- ===== src/Index/Rerun.antt =====
-- internal/retrieval/indexer.go: the stored hashes behind a walk, and a second walk over the same
-- files.
use costwise_mcp.Prelude.{
  ◌≡◌, ◌≢◌, refl, sym, ◌∙◌, subst, inl, inr, Bool, true, false, List, [], ◌∷◌, some, Bytes, hex,
  bytes_eq_self, bytes_discrete, lookup, All, Option-cases,
}
use costwise_mcp.Index.{
  IndexConfig, IndexResult, Parser, DiskFile, Hashes, Progress, unchanged, parse_and_store,
  index_file, index_files,
}
use costwise_mcp.Index.Database.{Tables, Statement}
use costwise_mcp.Index.Files.{AreApart}
use costwise_mcp.Index.Stored.{
  IsStored, IsStored-some, IsStored-lookup, index_file_frame, index_file-IsStored,
}

module _ (sha256 : Bytes → Bytes) (refuses : Statement → Tables → Bool)
    (accepts : (s : Statement) (t : Tables) → refuses s t ≡ false) (parser : Parser)
    (config : IndexConfig) where
  -- the walk, seen from a path that is none of its files'
  index_files_frame :
      (existing : Hashes) (fs : List DiskFile) (p : Progress) (path : Bytes)
      → All (λ (g : DiskFile). g.rel_path ≢ path) fs
      → lookup bytes_discrete path
          (index_files sha256 refuses parser config existing fs p).0.tables.files
        ≡ lookup bytes_discrete path p.tables.files
  unfolding index_files
  index_files_frame existing [] p path apart = refl
  index_files_frame existing (f ∷ fs) p path (other, apart) =
      let (ok, same) =
        index_file_frame sha256 refuses accepts parser config existing f p path
          (λ e. other (sym e)) in
      let q = (index_file sha256 refuses parser config existing f p).0 in
      rw (ok, index_files) (index_files_frame existing fs q path apart ∙ same)

  All-agree :
      (existing : Hashes) (f : DiskFile) (fs : List DiskFile) (p : Progress)
      → All (λ (g : DiskFile). g.rel_path ≢ f.rel_path) fs
      → All
          (λ (g : DiskFile).
            lookup bytes_discrete g.rel_path p.tables.files
            ≡ lookup bytes_discrete g.rel_path existing)
          fs
      → All
          (λ (g : DiskFile).
            lookup bytes_discrete g.rel_path
              (index_file sha256 refuses parser config existing f p).0.tables.files
            ≡ lookup bytes_discrete g.rel_path existing)
          fs
  All-agree existing f [] p apart agree = tt
  All-agree existing f (g ∷ fs) p (other, apart) (same, agree) = (
    (index_file_frame sha256 refuses accepts parser config existing f p g.rel_path other).1 ∙ same,
    All-agree existing f fs p apart agree,
  )

  index_files_ok :
      (existing : Hashes) (f : DiskFile) (fs : List DiskFile) (p : Progress)
      → (index_file sha256 refuses parser config existing f p).1 ≡ true
      → index_files sha256 refuses parser config existing (f ∷ fs) p
        ≡ index_files sha256 refuses parser config existing fs
            (index_file sha256 refuses parser config existing f p).0
  unfolding index_files
  index_files_ok existing f fs p ok = rw (ok, index_files) refl

  -- Behind the walk, every file that can be read is stored with the hash of its content.
  pub index_files-IsStored :
      (existing : Hashes) (fs : List DiskFile) (p : Progress)
      → AreApart fs
      → All
          (λ (g : DiskFile).
            lookup bytes_discrete g.rel_path p.tables.files
            ≡ lookup bytes_discrete g.rel_path existing)
          fs
      → let (q, ok) = index_files sha256 refuses parser config existing fs p in
        (ok ≡ true) × All (IsStored sha256 q.tables.files) fs
  index_files-IsStored existing [] p apart agree = unfold index_files in (refl, tt)
  index_files-IsStored existing (f ∷ fs) p (others, apart) (same, agree) =
      let q = (index_file sha256 refuses parser config existing f p).0 in
      let (ok, stored) =
        index_file-IsStored sha256 refuses accepts parser config existing f p same in
      let (done, rest) =
        index_files-IsStored existing fs q apart (All-agree existing f fs p others agree) in
      let later = index_files_frame existing fs q f.rel_path others in
      let next = index_files sha256 refuses parser config existing fs q in
      subst
        (λ (r : Progress × Bool). (r.1 ≡ true) × All (IsStored sha256 r.0.tables.files) (f ∷ fs))
        (sym (index_files_ok existing f fs p ok))
        (done, (IsStored-lookup sha256 q.tables.files next.0.tables.files f later stored, rest))

  unchanged-stored :
      (existing : Hashes) (rel hash : Bytes)
      → lookup bytes_discrete rel existing ≡ some hash
      → unchanged sha256 refuses parser config existing rel hash ≡ true
  unchanged-stored existing rel hash there = rw (there, unchanged) (bytes_eq_self hash)

  index_file_again :
      (existing : Hashes) (f : DiskFile) (p : Progress)
      → IsStored sha256 existing f
      → let (q, ok) = index_file sha256 refuses parser config existing f p in
        (ok ≡ true) × (q.tables ≡ p.tables) × (q.result.changed ≡ p.result.changed)
  unfolding index_file parse_and_store
  index_file_again existing f p stored = elim (Option-cases f.content) [
    | inl bad ↦ rw bad (refl, refl, refl)
    | inr (content, good) ↦
        let there = IsStored-some sha256 existing f content good stored in
        rw (good, unchanged-stored existing f.rel_path (hex (sha256 content)) there)
          (refl, refl, refl)
  ]

  pub index_files_again :
      (existing : Hashes) (fs : List DiskFile) (p : Progress)
      → All (IsStored sha256 existing) fs
      → let (q, ok) = index_files sha256 refuses parser config existing fs p in
        (ok ≡ true) × (q.tables ≡ p.tables) × (q.result.changed ≡ p.result.changed)
  unfolding index_files
  index_files_again existing [] p stored = (refl, refl, refl)
  index_files_again existing (f ∷ fs) p (first, stored) =
      let (ok, tables, changed) = index_file_again existing f p first in
      let q = (index_file sha256 refuses parser config existing f p).0 in
      let (done, same, count) = index_files_again existing fs q stored in
      rw (ok, index_files) (done, same ∙ tables, count ∙ changed)

  All-refl :
      (m : Hashes) (fs : List DiskFile)
      → All
          (λ (g : DiskFile).
            lookup bytes_discrete g.rel_path m ≡ lookup bytes_discrete g.rel_path m)
          fs
  All-refl m [] = tt
  All-refl m (f ∷ fs) = (refl, All-refl m fs)

  -- With a database that accepts every statement, the walk over files with different paths ends
  -- without an error, and a second walk over the same files with the hashes that the first left
  -- changes nothing in the tables and counts no file as changed.
  pub index_files-index_files :
      (fs : List DiskFile) (p : Progress) (result : IndexResult)
      → AreApart fs
      → let (q, ok) = index_files sha256 refuses parser config p.tables.files fs p in
        let again : Progress = record { tables = q.tables; result = result } in
        let (r, ok') = index_files sha256 refuses parser config q.tables.files fs again in
        (ok ≡ true) × (ok' ≡ true) × (r.tables ≡ q.tables) × (r.result.changed ≡ result.changed)
  index_files-index_files fs p result apart =
      let (ok, stored) =
        index_files-IsStored p.tables.files fs p apart (All-refl p.tables.files fs) in
      let q = (index_files sha256 refuses parser config p.tables.files fs p).0 in
      let (done, tables, changed) =
        index_files_again q.tables.files fs (record { tables = q.tables; result = result })
          stored in
      (ok, done, tables, changed)
