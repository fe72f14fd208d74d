-- ===== src/Stash/Reading.antt =====
-- internal/stash/stash.go: the lines that `Query` returns.
use Prim.Native.Nat.{max}
use mathlib.Core.List.{append_assoc, append-nil, Sublist, nil-sublist}
use mathlib.Core.List.Sublist
use costwise_mcp.Prelude.{
  ℕ, suc, ◌+◌, ◌≤◌, ◌≡◌, sym, ◌∙◌, inl, inr, Bool, not, ◌&&◌, List, [], ◌∷◌, ◌++◌, Bytes, unlines,
  bytes_eq, contains, to_lower, keep_if, ltb, length, arith, Bool-cases, length-append,
}
use costwise_mcp.Stash.{query_lines}

-- the test of the loop: an empty query matches every line
abbrev pub is_match : Bytes → Bytes → Bool
is_match q line = not (not (bytes_eq q []) && not (contains (to_lower line) q))

-- what the loop of `Query` returns from a text and two counts, over the lines of the content
pub record IsQueried (max_chars : ℕ) (matching : List Bytes) (before after : Bytes × ℕ × ℕ)
    : Type 0 where
  pub kept : List Bytes
  pub chosen : Sublist kept matching
  pub text : after.0 ≡ before.0 ++ unlines kept
  pub added : after.1 ≡ before.1 + length kept
  pub matched : after.2 ≡ before.2 + length matching
  pub bounded : length after.0 ≤ max max_chars (length before.0)

-- The loop of `Query` adds some of the lines that match, whole and in their order, counts these
-- and all that match, and the text stays within the limit, or keeps its length if it was longer.
pub query_lines-IsQueried :
    (q : Bytes) (max_chars : ℕ) (lines : List Bytes) (before : Bytes × ℕ × ℕ)
    → IsQueried max_chars (keep_if (is_match q) lines) before (query_lines q max_chars lines before)
unfolding query_lines
query_lines-IsQueried q max_chars [] (b, added, matched) = record {
  kept = [];
  chosen = nil-sublist [];
  text = sym (append-nil b);
  added = omega arith;
  matched = omega arith;
  bounded = omega arith;
}
query_lines-IsQueried q max_chars (line ∷ lines) (b, added, matched) =
    let b' = b ++ (line ++ b'\n' ∷ []) in
    let size : length b' ≡ length b + length line + 1 =
      omega (arith, length-append b (line ++ b'\n' ∷ []), length-append line (b'\n' ∷ [])) in
    let other = query_lines-IsQueried q max_chars lines (b, added, matched) in
    let over = query_lines-IsQueried q max_chars lines (b, added, suc matched) in
    let taken = query_lines-IsQueried q max_chars lines (b', suc added, suc matched) in
    elim (Bool-cases (not (bytes_eq q []) && not (contains (to_lower line) q))) [
      | inl no_match ↦ rw no_match (record {
        kept = other.kept;
        chosen = other.chosen;
        text = other.text;
        added = other.added;
        matched = other.matched;
        bounded = other.bounded;
      })
      | inr match_line ↦ elim (Bool-cases (ltb max_chars (length b + length line + 1))) [
        | inl long ↦
            rw (match_line, long)
              (record {
                kept = over.kept;
                chosen = Sublist.cons line over.chosen;
                text = over.text;
                added = over.added;
                matched = omega (arith, over.matched);
                bounded = over.bounded;
              })
        | inr fits ↦
            let room : length b + length line + 1 ≤ max_chars = ground arith in
            rw (match_line, fits)
              (record {
                kept = line ∷ taken.kept;
                chosen = Sublist.cons-cons line taken.chosen;
                text = taken.text ∙ append_assoc b (line ++ b'\n' ∷ []) (unlines taken.kept);
                added = omega (arith, taken.added);
                matched = omega (arith, taken.matched);
                bounded = omega (arith, taken.bounded);
              })
      ]
    ]
