-- ===== src/Compress/Imports.antt =====
-- internal/retrieval/compress.go: blocks of imports that `cleanSnippet` never leaves.
use costwise_mcp.Prelude.{
  ℕ, suc, ◌≤◌, ◌≡◌, refl, ap, ◌∙◌, inl, inr, Bool, true, false, ◌&&◌, ◌||◌, List, [], ◌∷◌, ◌++◌,
  Bytes, codes, bytes_eq, leb, All, trim_space, has_prefix, arith, Bool-cases,
}
use costwise_mcp.Compress.Snippets.{
  Cleaner, ends_empty, closes_block, opens_block, block_line, clean_line, clean_lines,
}

-- a line that does not end a block
abbrev pub KeepsOpen : Bytes → Type 0
KeepsOpen line = closes_block (trim_space line) ≡ false

abbrev in_block : List Bytes → ℕ → Cleaner
in_block cleaned n = record { cleaned = cleaned; import_count = n; in_block = true }

-- within a block, behind its first three lines, a line is dropped
clean_line-in_block :
    (line : Bytes) (cleaned : List Bytes) (n : ℕ)
    → KeepsOpen line
    → 3 ≤ n
    → (m : ℕ) × (3 ≤ m) × (clean_line line (in_block cleaned n) ≡ in_block cleaned m)
unfolding clean_line block_line
clean_line-in_block line cleaned n o h =
    let late : leb (suc n) 3 ≡ false = ground arith in
    elim (Bool-cases (bytes_eq (trim_space line) [] && ends_empty cleaned)) [
      | inl empty ↦ (n, h, rw empty refl)
      | inr some_text ↦
          elim (Bool-cases (
            has_prefix (trim_space line) (codes "// Code generated by")
            || has_prefix (trim_space line) (codes "// DO NOT EDIT"))) [
              | inl header ↦ (n, h, rw (some_text, header) refl)
              | inr plain ↦ elim (Bool-cases (opens_block (trim_space line) line)) [
                | inl opens ↦ (suc n, omega arith, rw (some_text, plain, opens, late) refl)
                | inr inside ↦ (suc n, omega arith, rw (some_text, plain, inside, o, late) refl)
              ]
            ]
    ]

clean_lines-in_block :
    (lines cleaned : List Bytes) (n : ℕ)
    → All KeepsOpen lines
    → 3 ≤ n
    → (clean_lines lines (in_block cleaned n)).cleaned ≡ cleaned
unfolding clean_lines
clean_lines-in_block [] cleaned n h late = refl
clean_lines-in_block (l ∷ ls) cleaned n (o, h) late =
    let (m, later, e) = clean_line-in_block l cleaned n o late in
    rw (e, clean_lines) (clean_lines-in_block ls cleaned m h later)

clean_lines-append :
    (xs ys : List Bytes) (c : Cleaner)
    → clean_lines (xs ++ ys) c ≡ clean_lines ys (clean_lines xs c)
unfolding clean_lines
clean_lines-append [] ys c = refl
clean_lines-append (x ∷ xs) ys c = clean_lines-append xs ys (clean_line x c)

blocked :
    (c : Cleaner) (rest : List Bytes)
    → c.in_block ≡ true
    → 3 ≤ c.import_count
    → All KeepsOpen rest
    → (clean_lines rest c).cleaned ≡ c.cleaned
blocked c rest inside late o =
    let here : c ≡ in_block c.cleaned c.import_count =
      ap (λ (b : Bool). record { cleaned = c.cleaned; import_count = c.import_count; in_block = b })
        inside in
    ap (λ (d : Cleaner). (clean_lines rest d).cleaned) here
    ∙ clean_lines-in_block rest c.cleaned c.import_count o late

-- When the first lines leave the cleaner within a block of imports with at least three lines
-- counted, then it drops every further line up to one that consists of a closing bracket.
pub clean_lines-blocked :
    (first rest : List Bytes) (c : Cleaner)
    → (clean_lines first c).in_block ≡ true
    → 3 ≤ (clean_lines first c).import_count
    → All KeepsOpen rest
    → (clean_lines (first ++ rest) c).cleaned ≡ (clean_lines first c).cleaned
clean_lines-blocked first rest c inside late o =
    rw (clean_lines-append first rest c) (blocked (clean_lines first c) rest inside late o)
