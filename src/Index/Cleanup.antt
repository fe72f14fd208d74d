-- ===== src/Index/Cleanup.antt =====
-- internal/retrieval/indexer.go: what `Index` does with the files that are gone.
use costwise_mcp.Prelude.{
  ℕ, suc, ◌+◌, ◌≡◌, refl, ap, ◌∙◌, inl, inr, Bool, true, false, not, List, [], ◌∷◌, Bytes, bytes_eq,
  bytes_discrete, if◌then◌else◌, insert, keep_if, arith, Bool-cases, length,
}
use costwise_mcp.Index.{IndexConfig, Parser, seen_in, Hashes, Progress, clear_gone, clean_up}
use costwise_mcp.Index.Database.{Tables, Statement, Outcome}

abbrev pub gone_row : Bytes → Bytes → Bool
gone_row path file = not (bytes_eq file path)

-- the tables without the rows of a file, which stays in `symbol_files` with an empty hash
unfoldable pub without : Bytes → Tables → Tables
without path t = record {
  symbols = keep_if (λ r. not (bytes_eq r.1.file path)) t.symbols;
  references = keep_if (λ r. not (bytes_eq r.file path)) t.references;
  call_edges = keep_if (λ r. not (bytes_eq r.file path)) t.call_edges;
  files = insert bytes_discrete path [] t.files;
}

-- the paths of the stored hashes that the walk did not see
abbrev pub missing : Hashes → List Bytes → List Bytes
missing [] seen = []
missing ((path, hash) ∷ existing) seen =
    let rest = missing existing seen in if seen_in path seen then rest else path ∷ rest

unfoldable pub without_all : List Bytes → Tables → Tables
without_all [] t = t
without_all (path ∷ paths) t = without_all paths (without path t)

module _ (sha256 : Bytes → Bytes) (refuses : Statement → Tables → Bool)
    (accepts : (s : Statement) (t : Tables) → refuses s t ≡ false) (parser : Parser)
    (config : IndexConfig) where
  clear_gone-without :
      (path : Bytes) (t : Tables)
      → clear_gone sha256 refuses parser config path t ≡ (without path t, true)
  unfolding clear_gone without
  clear_gone-without path t = simp accepts

  clean_up_gone :
      (path hash : Bytes) (existing : Hashes) (seen : List Bytes) (p : Progress)
      → seen_in path seen ≡ false
      → clean_up sha256 refuses parser config ((path, hash) ∷ existing) seen p
        ≡ clean_up sha256 refuses parser config existing seen (record {
          tables = without path p.tables;
          result = record p.result { deleted = suc p.result.deleted };
        })
  unfolding clean_up
  clean_up_gone path hash existing seen p gone =
      rw (gone, clean_up)
        (ap
          (λ (o : Outcome). elim o.1 [
            | true ↦ clean_up sha256 refuses parser config existing seen (record {
              tables = o.0;
              result = record p.result { deleted = suc p.result.deleted };
            })
            | false ↦ (record p { tables = o.0 }, false)
          ])
          (clear_gone-without path p.tables))

  clean_up_seen :
      (path hash : Bytes) (existing : Hashes) (seen : List Bytes) (p : Progress)
      → seen_in path seen ≡ true
      → clean_up sha256 refuses parser config ((path, hash) ∷ existing) seen p
        ≡ clean_up sha256 refuses parser config existing seen p
  unfolding clean_up
  clean_up_seen path hash existing seen p there = rw (there, clean_up)

  -- With a database that accepts every statement, the clean-up removes the rows of each stored
  -- path that the walk did not see, and counts these paths.
  pub clean_up-without_all :
      (existing : Hashes) (seen : List Bytes) (p : Progress)
      → let (q, ok) = clean_up sha256 refuses parser config existing seen p in
        (ok ≡ true)
        × (q.tables ≡ without_all (missing existing seen) p.tables)
        × (q.result
            ≡ record p.result { deleted = p.result.deleted + length (missing existing seen) })
  unfolding without_all
  clean_up-without_all [] seen p =
      unfold clean_up in (refl, refl, ap (λ (n : ℕ). record p.result { deleted = n }) (omega arith))
  clean_up-without_all ((path, hash) ∷ existing) seen p = elim (Bool-cases (seen_in path seen)) [
    | inl there ↦
        rw (clean_up_seen path hash existing seen p there)
          (rw there (clean_up-without_all existing seen p))
    | inr gone ↦
        let p' : Progress = record {
          tables = without path p.tables;
          result = record p.result { deleted = suc p.result.deleted };
        } in
        let (ok, tables, result) = clean_up-without_all existing seen p' in
        rw (clean_up_gone path hash existing seen p gone) (
          rw gone
            (ok, tables, result ∙ ap (λ (n : ℕ). record p.result { deleted = n }) (omega arith)))
  ]
