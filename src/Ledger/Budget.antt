-- ===== src/Ledger/Budget.antt =====
-- internal/ledger/ledger.go: the budget of `SessionBrief`.
use Prim.Native.Nat.{max}
use mathlib.Core.List.{append_assoc, append-nil, Sublist, nil-sublist}
use mathlib.Core.List.Sublist
use costwise_mcp.Prelude.{
  ℕ, suc, ◌+◌, ◌≤◌, ◌<◌, ◌≡◌, refl, sym, ◌∙◌, inl, inr, ◌&&◌, List, [], ◌∷◌, ◌++◌, Bytes, unlines,
  ltb, length, arith, Bool-cases, length-append,
}
use costwise_mcp.Ledger.Brief.{add_lines}

-- what the loop of `SessionBrief` returns from a text `b`, over the rendered lines
pub record IsBudgeted (max_chars : ℕ) (b : Bytes) (omitted : ℕ) (lines : List Bytes) (r : Bytes × ℕ)
    : Type 0 where
  pub kept : List Bytes
  pub chosen : Sublist kept lines
  pub written : r.0 ≡ b ++ unlines kept
  pub counted : r.1 + length kept ≡ omitted + length lines
  pub bounded : length r.0 ≤ max max_chars (length b)

module _ (format : Bytes → ℕ → Bytes) where
  -- From a text that is not empty, the loop adds some of the lines, whole and in their order. The
  -- lines that it adds and those that it counts as omitted are all the lines, and the text stays
  -- within the limit, or keeps its length if it was longer.
  pub add_lines-IsBudgeted :
      (max_chars : ℕ) (b : Bytes) (omitted : ℕ) (lines : List Bytes)
      → 0 < length b
      → IsBudgeted max_chars b omitted lines (add_lines format max_chars b omitted lines)
  unfolding add_lines
  add_lines-IsBudgeted max_chars b omitted [] h = record {
    kept = [];
    chosen = nil-sublist [];
    written = sym (append-nil b);
    counted = refl;
    bounded = omega arith;
  }
  add_lines-IsBudgeted max_chars b omitted (line ∷ lines) h =
      let b' = b ++ (line ++ b'\n' ∷ []) in
      let size : length b' ≡ length b + length line + 1 =
        omega (arith, length-append b (line ++ b'\n' ∷ []), length-append line (b'\n' ∷ [])) in
      let skip = add_lines-IsBudgeted max_chars b (suc omitted) lines h in
      let keep = add_lines-IsBudgeted max_chars b' omitted lines (omega arith) in
      elim (Bool-cases (ltb max_chars (length b + length line + 1) && ltb 0 (length b))) [
        | inl over ↦ rw over (record {
          kept = skip.kept;
          chosen = Sublist.cons line skip.chosen;
          written = skip.written;
          counted = omega (arith, skip.counted);
          bounded = skip.bounded;
        })
        | inr fits ↦
            let room : length b + length line + 1 ≤ max_chars = ground arith in
            rw fits (record {
              kept = line ∷ keep.kept;
              chosen = Sublist.cons-cons line keep.chosen;
              written = keep.written ∙ append_assoc b (line ++ b'\n' ∷ []) (unlines keep.kept);
              counted = omega (arith, keep.counted);
              bounded = omega (arith, keep.bounded);
            })
      ]
