-- ===== src/Compress/Snippets.antt =====
-- internal/retrieval/compress.go: `cleanSnippet`, which shortens blocks of imports.
use costwise_mcp.Prelude.{
  ℕ, suc, Bool, true, false, not, ◌&&◌, ◌||◌, List, [], ◌∷◌, ◌++◌, none, some, Bytes, codes,
  bytes_eq, ltb, leb, ◌==◌, if◌then◌else◌, get_last?, split, join, trim_space, has_prefix, contains,
}

-- the variables of the loop
pub record Cleaner : Type 0 where
  pub cleaned : List Bytes
  pub import_count : ℕ
  pub in_block : Bool

abbrev pub ends_empty : List Bytes → Bool
ends_empty lines = elim (get_last? lines) [ none ↦ false | some l ↦ bytes_eq l [] ]

abbrev pub closes_block : Bytes → Bool
closes_block s =
    bytes_eq s (codes ")")
    || (bytes_eq s (codes "}") || (bytes_eq s (codes "];") || bytes_eq s (codes "};")))

abbrev pub opens_block : Bytes → Bytes → Bool
opens_block trimmed line =
    has_prefix trimmed (codes "import (") || has_prefix line (codes "import {")

abbrev keep : Bytes → Cleaner → Cleaner
keep line c = record c { cleaned = c.cleaned ++ line ∷ [] }

-- a line within a block of imports
unfoldable pub block_line : Bytes → Bytes → Cleaner → Cleaner
block_line trimmed line c =
    let n = suc c.import_count in
    let counted = record c { import_count = n } in
    if closes_block trimmed
    then (if ltb 3 n
        then record counted {
          cleaned = c.cleaned ++ codes "  // ... imports truncated ..." ∷ line ∷ [];
          in_block = false;
        }
        else record counted { cleaned = c.cleaned ++ line ∷ []; in_block = false })
    else if leb n 3
    then keep line counted
    else counted

-- a line outside, behind the tests for empty lines, headers and blocks
unfoldable pub plain_line : Bytes → Bytes → Cleaner → Cleaner
plain_line trimmed line c =
    let n = suc c.import_count in
    if has_prefix trimmed (codes "import ") && not (contains trimmed (codes "("))
    then (if ltb 5 n
        then record c { import_count = n }
        else if n == 5
        then record c {
          import_count = n;
          cleaned = c.cleaned ++ codes "// ... more imports truncated ..." ∷ [];
        }
        else keep line (record c { import_count = n }))
    else keep line c

-- the body of the loop
unfoldable pub clean_line : Bytes → Cleaner → Cleaner
unfolding block_line plain_line
clean_line line c =
    let trimmed = trim_space line in
    let n = suc c.import_count in
    let opened = record c { import_count = n; in_block = true } in
    if bytes_eq trimmed [] && ends_empty c.cleaned
    then c
    else if has_prefix trimmed (codes "// Code generated by")
        || has_prefix trimmed (codes "// DO NOT EDIT")
    then c
    else if opens_block trimmed line
    then (if leb n 3 then keep line opened else opened)
    else if c.in_block
    then block_line trimmed line c
    else plain_line trimmed line c

unfoldable pub clean_lines : List Bytes → Cleaner → Cleaner
unfolding clean_line
clean_lines [] c = c
clean_lines (line ∷ lines) c = clean_lines lines (clean_line line c)

unfoldable pub clean_snippet : Bytes → Bytes
unfolding clean_lines
clean_snippet snippet =
    join
      (clean_lines (split snippet b'\n')
        (record { cleaned = []; import_count = 0; in_block = false })).cleaned
      (codes "\n")
