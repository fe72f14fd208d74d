-- ===== src/Filters.antt =====
-- internal/retrieval/filters.go: the results that a search may show. A score is a number, in the
-- unit of the smallest score allowed.
use costwise_mcp.Prelude.{
  ℕ, zero, suc, ◌≡◌, refl, sym, Bool, true, false, not, ◌&&◌, ◌||◌, List, [], ◌∷◌, ℤ, or_default,
  Bytes, codes, ltb, length, take, keep_if, sort_by, to_lower, contains, has_suffix, ◌≤◌, arith,
  IsStrictOrder, IsTop, take-sort_by-IsTop, take_of_length-le, sort_by-length,
}
use costwise_mcp.Index.Paths.{base}
use costwise_mcp.Builder.{Result}

-- a list of directories, each with and without a slash before it, as in the code
abbrev excluded_dirs : List Bytes
excluded_dirs =
    codes "tests/fixtures/"
    ∷ codes "/tests/fixtures/"
    ∷ codes "fixtures/"
    ∷ codes "/fixtures/"
    ∷ codes "testdata/"
    ∷ codes "/testdata/"
    ∷ codes "examples/"
    ∷ codes "/examples/"
    ∷ codes "samples/"
    ∷ codes "/samples/"
    ∷ codes "benchmarks/"
    ∷ codes "/benchmarks/"
    ∷ codes "reports/"
    ∷ codes "/reports/"
    ∷ codes "coverage/"
    ∷ codes "/coverage/"
    ∷ codes ".cache/"
    ∷ codes "/.cache/"
    ∷ codes ".git/"
    ∷ codes "/.git/"
    ∷ codes "node_modules/"
    ∷ codes "/node_modules/"
    ∷ codes "vendor/"
    ∷ codes "/vendor/"
    ∷ codes "dist/"
    ∷ codes "/dist/"
    ∷ codes "build/"
    ∷ codes "/build/"
    ∷ codes "tmp/"
    ∷ codes "/tmp/"
    ∷ codes "logs/"
    ∷ codes "/logs/"
    ∷ []

abbrev pub in_excluded : Bytes → List Bytes → Bool
in_excluded path [] = false
in_excluded path (d ∷ dirs) = contains path (to_lower d) || in_excluded path dirs

abbrev pub is_excluded_name : Bytes → Bool
is_excluded_name name =
    contains name (codes "chat-history")
    || (contains name (codes ".gold.")
        || (contains name (codes ".snapshot.")
            || (has_suffix name (codes ".log") || contains name (codes "benchmark-report"))))

-- the tests of the loop
unfoldable pub is_shown : ℕ → Result → Bool
is_shown min_score r =
    let path = to_lower r.file in
    not (ltb r.score min_score)
    && (not (in_excluded path excluded_dirs) && not (is_excluded_name (base path)))

abbrev pub scores_higher : Result → Result → Bool
scores_higher r s = ltb s.score r.score

-- the cap on the sorted results
abbrev pub cap : ℤ → List Result → List Result
cap (ℤ.pos zero) results = results
cap (ℤ.pos (suc n)) results = take (suc n) results
cap (ℤ.negsuc n) results = results

-- `FilterResults`
unfoldable pub filter_results : ℕ → ℤ → List Result → List Result
unfolding is_shown
filter_results min_score max_results results =
    cap max_results (sort_by scores_higher (keep_if (is_shown min_score) results))

keep_if-length :
    (p : Result → Bool) (results : List Result) → length (keep_if p results) ≤ length results
keep_if-length p [] = omega arith
keep_if-length p (r ∷ results) = ground (arith, keep_if-length p results)

cap-take :
    (max_results : ℤ) (n : ℕ) (results : List Result)
    → length results ≤ n
    → cap max_results results ≡ take (or_default n max_results) results
cap-take (ℤ.pos zero) n results h = sym (take_of_length-le n results h)
cap-take (ℤ.pos (suc k)) n results h = refl
cap-take (ℤ.negsuc k) n results h = sym (take_of_length-le n results h)

higher_asymmetric : (a b : ℕ) → ltb b a ≡ true → ltb a b ≡ false
higher_asymmetric a b h = ground arith

higher_cotransitive : (a b c : ℕ) → ltb b c ≡ false → ltb a b ≡ false → ltb a c ≡ false
higher_cotransitive a b c g h = ground arith

scores_higher-IsStrictOrder : IsStrictOrder scores_higher
scores_higher-IsStrictOrder = record {
  asymmetric = λ r s h. higher_asymmetric r.score s.score h;
  cotransitive = λ r s t g h. higher_cotransitive r.score s.score t.score g h;
}

-- `FilterResults` returns the results that pass the tests, the higher scores first: at most as many
-- as the maximum, if that is positive, and fewer only if there are no more, and none with a lower
-- score than one left out.
pub filter_results-IsTop :
    (min_score : ℕ) (max_results : ℤ) (results : List Result)
    → IsTop scores_higher
        (is_shown min_score)
        (or_default (length results) max_results)
        results
        (filter_results min_score max_results results)
unfolding filter_results
filter_results-IsTop min_score max_results results =
    let kept = keep_if (is_shown min_score) results in
    let few : length (sort_by scores_higher kept) ≤ length results =
      omega
        (arith, sort_by-length scores_higher kept, keep_if-length (is_shown min_score) results) in
    rw (cap-take max_results (length results) (sort_by scores_higher kept) few) (
      take-sort_by-IsTop scores_higher scores_higher-IsStrictOrder (is_shown min_score)
        (or_default (length results) max_results) results)
