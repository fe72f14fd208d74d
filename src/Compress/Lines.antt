-- ===== src/Compress/Lines.antt =====
-- internal/retrieval/compress.go: which lines the list of callers or references shows.
use mathlib.Core.List.{append_assoc, append-nil}
use costwise_mcp.Prelude.{
  ℕ, suc, ◌+◌, ◌/◌, ◌≤◌, ◌<◌, ◌≡◌, refl, ap, sym, ◌∙◌, ◌⊎◌, inl, inr, Bool, true, false, ◌||◌, List,
  [], ◌∷◌, ◌++◌, Bytes, bytes_eq, leb, leb→le, if◌then◌else◌, length, trim_space, arith, Bool-cases,
}
use costwise_mcp.Builder.{Result}
use costwise_mcp.Compress.{
  compressed, Listing, line_of, indented, indented_lines, is_seen, add_line, add_all, add_results,
  result_lines, tail_line, compress_line_list,
}

-- the lines of all results, in order
abbrev pub all_lines : List Result → List Bytes
all_lines [] = []
all_lines (r ∷ rs) = result_lines r ++ all_lines rs

-- the trimmed lines that are not empty, each where it first occurs
abbrev pub distinct_lines : List Bytes → List Bytes → List Bytes
distinct_lines seen [] = []
distinct_lines seen (l ∷ ls) =
    let skipped = distinct_lines seen ls in
    let kept = distinct_lines (trim_space l ∷ seen) ls in
    if bytes_eq (trim_space l) [] || is_seen (trim_space l) seen
    then skipped
    else trim_space l ∷ kept

-- each line is added to a text that is still within the budget
abbrev pub Fits : ℕ → Bytes → List Bytes → Type 0
Fits budget text [] = Unit
Fits budget text (l ∷ ls) = (length text / 4 < budget) × Fits budget (text ++ indented l) ls

-- The lines are shown from the first on while the text is within the budget, and the others are
-- counted.
pub record IsCut (budget : ℕ) (text : Bytes) (lines : List Bytes) (whole : Bytes) (omitted : ℕ)
    : Type 0 where
  pub shown : List Bytes
  pub left : List Bytes
  pub all : shown ++ left ≡ lines
  pub written : whole ≡ text ++ indented_lines shown
  pub fits : Fits budget text shown
  pub counted : omitted ≡ length left
  pub exhausted : (left ≡ []) ⊎ (budget ≤ length whole / 4)

none-IsCut : (budget : ℕ) (text : Bytes) → IsCut budget text [] text 0
none-IsCut budget text = record {
  shown = [];
  left = [];
  all = refl;
  written = sym (append-nil text);
  fits = tt;
  counted = refl;
  exhausted = inl refl;
}

shown-IsCut :
    (budget : ℕ) (text line : Bytes) (lines : List Bytes) (whole : Bytes) (omitted : ℕ)
    → length text / 4 < budget
    → IsCut budget (text ++ indented line) lines whole omitted
    → IsCut budget text (line ∷ lines) whole omitted
shown-IsCut budget text line lines whole omitted fit c = record {
  shown = line ∷ c.shown;
  left = c.left;
  all = ap (◌∷◌ line) c.all;
  written = c.written ∙ append_assoc text (indented line) (indented_lines c.shown);
  fits = (fit, c.fits);
  counted = c.counted;
  exhausted = c.exhausted;
}

full-IsCut :
    (budget : ℕ) (text : Bytes) (lines : List Bytes) (omitted : ℕ)
    → budget ≤ length text / 4
    → omitted ≡ length lines
    → IsCut budget text lines text omitted
full-IsCut budget text lines omitted full e = record {
  shown = [];
  left = lines;
  all = refl;
  written = sym (append-nil text);
  fits = tt;
  counted = e;
  exhausted = inr full;
}

abbrev listing : Bytes → List Bytes → ℕ → Bool → Listing
listing text seen omitted truncated = record {
  text = text;
  seen = seen;
  omitted = omitted;
  truncated = truncated;
}

-- when the budget is used up, the lines are only counted
add_all-full :
    (budget : ℕ) (lines : List Bytes) (text : Bytes) (seen : List Bytes) (omitted : ℕ)
    (truncated : Bool)
    → budget ≤ length text / 4
    → let st = add_all budget lines (listing text seen omitted truncated) in
      (st.text ≡ text) × (st.omitted ≡ omitted + length (distinct_lines seen lines))
unfolding add_all
add_all-full budget [] text seen omitted truncated full = (refl, omega arith)
add_all-full budget (l ∷ ls) text seen omitted truncated full =
    let spent : (truncated || leb budget (length text / 4)) ≡ true = ground arith in
    elim (Bool-cases (bytes_eq (trim_space l) [] || is_seen (trim_space l) seen)) [
      | inl skip ↦ rw (skip, add_all) (add_all-full budget ls text seen omitted truncated full)
      | inr fresh ↦
          let (e, f) = add_all-full budget ls text (trim_space l ∷ seen) (suc omitted) true full in
          rw (fresh, add_all, spent) (e, omega (arith, f))
    ]

add_all-IsCut :
    (budget : ℕ) (lines : List Bytes) (text : Bytes) (seen : List Bytes)
    → let st = add_all budget lines (listing text seen 0 false) in
      IsCut budget text (distinct_lines seen lines) st.text st.omitted
unfolding add_all
add_all-IsCut budget [] text seen = none-IsCut budget text
add_all-IsCut budget (l ∷ ls) text seen =
    elim (Bool-cases (bytes_eq (trim_space l) [] || is_seen (trim_space l) seen)) [
      | inl skip ↦ rw (skip, add_all) (add_all-IsCut budget ls text seen)
      | inr fresh ↦ elim (Bool-cases (leb budget (length text / 4))) [
        | inl full ↦
            let le = leb→le budget (length text / 4) full in
            let (e, f) = add_all-full budget ls text (trim_space l ∷ seen) 1 true le in
            rw (fresh, add_all, full, e, f)
              (full-IsCut budget text (trim_space l ∷ distinct_lines (trim_space l ∷ seen) ls) _ le
                (omega arith))
        | inr under ↦
            rw (fresh, add_all, under)
              (shown-IsCut budget text (trim_space l) _ _ _ (ground arith)
                (add_all-IsCut budget ls (text ++ indented (trim_space l)) (trim_space l ∷ seen)))
      ]
    ]

add_all-append :
    (budget : ℕ) (xs ys : List Bytes) (st : Listing)
    → add_all budget (xs ++ ys) st ≡ add_all budget ys (add_all budget xs st)
unfolding add_all
add_all-append budget [] ys st = refl
add_all-append budget (x ∷ xs) ys st = add_all-append budget xs ys (add_line budget x st)

add_results-all_lines :
    (budget : ℕ) (rs : List Result) (st : Listing)
    → add_results budget rs st ≡ add_all budget (all_lines rs) st
unfolding add_results add_all
add_results-all_lines budget [] st = refl
add_results-all_lines budget (r ∷ rs) st =
    add_results-all_lines budget rs (add_all budget (result_lines r) st)
    ∙ sym (add_all-append budget (result_lines r) (all_lines rs) st)

-- The list for some results is the header, then the lines of the results, trimmed, without empty
-- lines and repetitions and in order, as long as a quarter of the text's length is below the
-- budget, and then a line with the number of the other lines, if there are any.
pub compress_line_list-IsCut :
    (r : Result) (rs : List Result) (budget : ℕ) (header noun : Bytes)
    → (whole : Bytes) × (omitted : ℕ) × IsCut budget
        (line_of header)
        (distinct_lines [] (all_lines (r ∷ rs)))
        whole
        omitted
      × (compress_line_list (r ∷ rs) budget header noun
          ≡ compressed (whole ++ tail_line omitted noun))
unfolding compress_line_list
compress_line_list-IsCut r rs budget header noun =
    let st = add_all budget (all_lines (r ∷ rs)) (listing (line_of header) [] 0 false) in
    (
      st.text,
      st.omitted,
      add_all-IsCut budget (all_lines (r ∷ rs)) (line_of header) [],
      ap (λ (s : Listing). compressed (s.text ++ tail_line s.omitted noun))
          (add_results-all_lines budget (r ∷ rs) (listing (line_of header) [] 0 false)),
    )
