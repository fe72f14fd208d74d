-- ===== src/Index/Files.antt =====
-- internal/retrieval/indexer.go: the walk over the files, and a second run behind it.
use costwise_mcp.Prelude.{
  ◌≡◌, ◌≢◌, refl, ◌∙◌, inl, inr, Bool, true, false, List, [], ◌∷◌, map, Bytes, bytes_discrete,
  insert, All, Bool-cases, Option-cases,
}
use costwise_mcp.Index.{
  IndexConfig, Parser, DiskFile, symbols_stage, references_stage, calls_stage, parse_and_store,
}
use costwise_mcp.Index.Database.{
  Symbol, Reference, CallEdge, Tables, Statement, Outcome, then_do, exec, effect, clear_file,
  store_symbols, clear_references, store_references, clear_call_edges, store_call_edges,
  mark_indexed,
}

-- no two files have the same path from the root
abbrev pub AreApart : List DiskFile → Type 0
AreApart [] = Unit
AreApart (f ∷ fs) = All (λ (g : DiskFile). g.rel_path ≢ f.rel_path) fs × AreApart fs

-- a statement, or several, that succeeded and left the stored hashes alone
abbrev pub KeepsHashes : Outcome → Tables → Type 0
KeepsHashes o t = (o.1 ≡ true) × (o.0.files ≡ t.files)

then_do_ok : (o : Outcome) (f : Tables → Outcome) → o.1 ≡ true → then_do o f ≡ f o.0
then_do_ok (t, true) f h = refl
then_do_ok (t, false) f h = cc

module _ (sha256 : Bytes → Bytes) (refuses : Statement → Tables → Bool)
    (accepts : (s : Statement) (t : Tables) → refuses s t ≡ false) (parser : Parser)
    (config : IndexConfig) where
  symbols-KeepsHashes :
      (path : Bytes) (ss : List Symbol) (t : Tables)
      → KeepsHashes
          (then_do (exec sha256 refuses (clear_file path) t) (λ u. elim ss [
            | [] ↦ (u, true)
            | s ∷ rest ↦ exec sha256 refuses (store_symbols (s ∷ rest)) u
          ]))
          t
  symbols-KeepsHashes path [] t = rw (accepts (clear_file path) t) (refl, refl)
  symbols-KeepsHashes path (s ∷ ss) t = simp accepts (refl, refl)

  references-KeepsHashes :
      (path : Bytes) (rs : List Reference) (t : Tables)
      → KeepsHashes
          (elim rs [
            | [] ↦ (t, true)
            | r ∷ rest ↦
                then_do
                  (exec sha256 refuses (clear_references path) t)
                  (λ u. exec sha256 refuses (store_references (r ∷ rest)) u)
          ])
          t
  references-KeepsHashes path [] t = (refl, refl)
  references-KeepsHashes path (r ∷ rs) t = simp accepts (refl, refl)

  calls-KeepsHashes :
      (path : Bytes) (cs : List CallEdge) (t : Tables)
      → KeepsHashes
          (elim cs [
            | [] ↦ (t, true)
            | c ∷ rest ↦
                then_do
                  (exec sha256 refuses (clear_call_edges path) t)
                  (λ u. exec sha256 refuses (store_call_edges (c ∷ rest)) u)
          ])
          t
  calls-KeepsHashes path [] t = (refl, refl)
  calls-KeepsHashes path (c ∷ cs) t = simp accepts (refl, refl)

  symbols_stage-KeepsHashes :
      (f : DiskFile) (t : Tables) → KeepsHashes (symbols_stage sha256 refuses parser config f t) t
  symbols_stage-KeepsHashes f t = elim (Bool-cases config.parse_symbols) [
    | inr off ↦ rw off (refl, refl)
    | inl on ↦ elim (Option-cases (parser.symbols f.path)) [
      | inl bad ↦ rw (on, bad) (refl, refl)
      | inr (found, good) ↦
          rw (on, good)
            (symbols-KeepsHashes f.rel_path
              (map (λ (s : Symbol). record s { file = f.rel_path }) found) t)
    ]
  ]

  references_stage-KeepsHashes :
      (f : DiskFile) (t : Tables)
      → KeepsHashes (references_stage sha256 refuses parser config f t) t
  references_stage-KeepsHashes f t = elim (Bool-cases config.parse_references) [
    | inr off ↦ rw off (refl, refl)
    | inl on ↦ elim (Option-cases (parser.references f.path)) [
      | inl bad ↦ rw (on, bad) (refl, refl)
      | inr (found, good) ↦
          rw (on, good)
            (references-KeepsHashes f.rel_path
              (map (λ (r : Reference). record r { file = f.rel_path }) found) t)
    ]
  ]

  calls_stage-KeepsHashes :
      (f : DiskFile) (t : Tables) → KeepsHashes (calls_stage sha256 refuses parser config f t) t
  calls_stage-KeepsHashes f t = elim (Bool-cases config.parse_calls) [
    | inr off ↦ rw off (refl, refl)
    | inl on ↦ elim (Option-cases (parser.calls f.path)) [
      | inl bad ↦ rw (on, bad) (refl, refl)
      | inr (found, good) ↦
          rw (on, good)
            (calls-KeepsHashes f.rel_path
              (map (λ (c : CallEdge). record c { file = f.rel_path; caller_file = f.rel_path })
                found)
              t)
    ]
  ]

  -- A changed file is stored whole, and its hash under its path.
  pub parse_and_store_hash :
      (f : DiskFile) (hash : Bytes) (t : Tables)
      → let o = parse_and_store sha256 refuses parser config f hash t in
        (o.1 ≡ true) × (o.0.files ≡ insert bytes_discrete f.rel_path hash t.files)
  unfolding parse_and_store
  parse_and_store_hash f hash t =
      let s = symbols_stage sha256 refuses parser config f t in
      let r = references_stage sha256 refuses parser config f s.0 in
      let c = calls_stage sha256 refuses parser config f r.0 in
      let (s_ok, s_files) = symbols_stage-KeepsHashes f t in
      let (r_ok, r_files) = references_stage-KeepsHashes f s.0 in
      let (c_ok, c_files) = calls_stage-KeepsHashes f r.0 in
      let marks : (Tables → Outcome) = λ w. exec sha256 refuses (mark_indexed f.rel_path hash) w in
      let stored : parse_and_store sha256 refuses parser config f hash t ≡ marks c.0 =
        then_do_ok s _ s_ok ∙ (then_do_ok r _ r_ok ∙ then_do_ok c _ c_ok) in
      let marked : marks c.0 ≡ (effect sha256 (mark_indexed f.rel_path hash) c.0, true) =
        rw (accepts (mark_indexed f.rel_path hash) c.0) refl in
      rw (stored ∙ marked) (refl, rw (c_files ∙ (r_files ∙ s_files)) refl)
