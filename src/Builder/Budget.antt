-- ===== src/Builder/Budget.antt =====
-- internal/contextbuilder/builder.go: the budget of `Build`.
use Prim.Native.Nat.{max}
use costwise_mcp.Prelude.{
  ℕ, suc, ◌+◌, ◌*◌, ◌≤◌, ◌≡◌, ◌⊎◌, refl, ap, ◌∙◌, subst, inl, inr, Bool, true, false, not, List, [],
  ◌∷◌, Option, none, some, Bytes, bytes_eq, ltb, if◌then◌else◌, length, length-append, arith,
  Bool-cases, Option-cases,
}
use costwise_mcp.Builder.{
  Level, level0, level1, level2, level3, level4, level5, level6, level7, Result, Builder, block,
  shown, candidate, choose, show_all, build, by_score, insert_by_score, is_level0, count_tokens,
  with_snippet, load_full_file, extract_function_body, named_or_scored,
}

some-length : (s t : Bytes) → some s ≡ some t → length s ≤ length t
some-length s t h = let e : s ≡ t = cc h in omega (arith, ap (λ (u : Bytes). length u) e)

kept_length : (e : Bool) (s t : Bytes) → (if e then none else some s) ≡ some t → length s ≤ length t
kept_length true s t h = absurd (cc h)
kept_length false s t h = some-length s t h

shown_length :
    (e : Bool) (s t : Bytes)
    → (if e then none else some s) ≡ some t
    → length (if e then [] else s) ≤ length t
shown_length true s t h = absurd (cc h)
shown_length false s t h = some-length s t h

body_length :
    (no_body no_snippet : Bool) (body named scored t : Bytes)
    → (if no_body then some (if no_snippet then named else scored) else some body) ≡ some t
    → length (if not no_body then body else if not no_snippet then scored else []) ≤ length t
body_length true true body named scored t h = omega arith
body_length true false body named scored t h = some-length scored t h
body_length false no_snippet body named scored t h = some-length body t h

module _ (read_file : Bytes → Option Bytes) (format_score : ℕ → Bytes) where
  -- what is shown of a result is no longer than what was counted for it
  block-shown :
      (level : Level) (r : Result) (text : Bytes)
      → block read_file format_score level r ≡ some text
      → length (shown read_file format_score level r) ≤ length text
  unfolding block shown
  block-shown level0 r text h = absurd (cc h)
  block-shown level1 r text h = some-length (named_or_scored read_file format_score r) text h
  block-shown level2 r text h = kept_length (bytes_eq r.snippet []) _ text h
  block-shown level3 r text h =
      kept_length
        (bytes_eq
          (if bytes_eq r.snippet []
            then load_full_file read_file format_score r.file
            else r.snippet)
          [])
        _ text h
  block-shown level4 r text h = shown_length (bytes_eq r.snippet []) _ text h
  block-shown level5 r text h = shown_length (bytes_eq r.snippet []) _ text h
  block-shown level6 r text h = shown_length (bytes_eq r.snippet []) _ text h
  block-shown level7 r text h =
      body_length (bytes_eq (extract_function_body read_file format_score r) [])
        (bytes_eq r.snippet []) _ _ _ text h

  -- the outcome of the switch, with its tokens
  abbrev counted : Level → Result → Option Bytes → Option (Result × ℕ)
  counted level q text = elim text [ none ↦ none | some t ↦ some (q, count_tokens t) ]

  counted-some :
      (level : Level) (q q' : Result) (n : ℕ) (o : Option Bytes)
      → counted level q o ≡ some (q', n)
      → (q ≡ q') × ((text : Bytes) × ((o ≡ some text) × (n ≡ count_tokens text)))
  counted-some level q q' n none h = absurd (cc h)
  counted-some level q q' n (some t) h = (cc h, (t, (refl, cc h)))

  candidate_length :
      (level : Level) (o : Option Result) (q : Result) (n : ℕ)
      → (elim o [ none ↦ none | some p ↦ counted level p (block read_file format_score level p) ])
        ≡ some (q, n)
      → length (shown read_file format_score level q) ≤ n * 4 + 3
  candidate_length level none q n h = absurd (cc h)
  candidate_length level (some p) q n h =
      let (same, (text, (made, tokens))) =
        counted-some level p q n (block read_file format_score level p) h in
      let fits = block-shown level p text made in
      let size : length (shown read_file format_score level q) ≤ length text =
        subst (λ (r : Result). length (shown read_file format_score level r) ≤ length text) same
          fits in
      omega (arith, size, tokens)

  candidate-shown :
      (level : Level) (r q : Result) (n : ℕ)
      → is_level0 level ≡ false
      → candidate read_file format_score level r ≡ some (q, n)
      → length (shown read_file format_score level q) ≤ n * 4 + 3
  unfolding candidate
  candidate-shown level0 r q n above h = absurd (cc above)
  candidate-shown level1 r q n above h =
      candidate_length level1 (with_snippet read_file format_score level1 r) q n h
  candidate-shown level2 r q n above h =
      candidate_length level2 (with_snippet read_file format_score level2 r) q n h
  candidate-shown level3 r q n above h =
      candidate_length level3 (with_snippet read_file format_score level3 r) q n h
  candidate-shown level4 r q n above h =
      candidate_length level4 (with_snippet read_file format_score level4 r) q n h
  candidate-shown level5 r q n above h =
      candidate_length level5 (with_snippet read_file format_score level5 r) q n h
  candidate-shown level6 r q n above h =
      candidate_length level6 (with_snippet read_file format_score level6 r) q n h
  candidate-shown level7 r q n above h =
      candidate_length level7 (with_snippet read_file format_score level7 r) q n h

  -- what the loop chooses from some tokens on
  record IsChosen (level : Level) (budget : ℕ) (rs : List Result) (tokens : ℕ)
      (c : List Result × ℕ × ℕ) : Type 0 where
    pub all : length c.0 + c.2 ≡ length rs
    pub bounded : c.1 ≤ max budget tokens
    pub measured :
        is_level0 level ≡ false
        → length (show_all read_file format_score level c.0) + tokens * 4 ≤ c.1 * 4 + length c.0 * 3

  choose_dropped :
      (level : Level) (budget : ℕ) (r : Result) (rs : List Result) (tokens : ℕ)
      → candidate read_file format_score level r ≡ none
      → choose read_file format_score level budget (r ∷ rs) tokens ≡ (
          let (included, total, dropped) = choose read_file format_score level budget rs tokens in
          (included, total, suc dropped))
  unfolding choose
  choose_dropped level budget r rs tokens none_left = rw (none_left, choose) refl

  choose_over :
      (level : Level) (budget : ℕ) (r : Result) (rs : List Result) (tokens : ℕ) (q : Result) (n : ℕ)
      → candidate read_file format_score level r ≡ some (q, n)
      → ltb budget (tokens + n) ≡ true
      → choose read_file format_score level budget (r ∷ rs) tokens ≡ (
          let (included, total, dropped) = choose read_file format_score level budget rs tokens in
          (included, total, suc dropped))
  unfolding choose
  choose_over level budget r rs tokens q n found over = rw (found, choose) (rw (over, choose) refl)

  choose_fits :
      (level : Level) (budget : ℕ) (r : Result) (rs : List Result) (tokens : ℕ) (q : Result) (n : ℕ)
      → candidate read_file format_score level r ≡ some (q, n)
      → ltb budget (tokens + n) ≡ false
      → choose read_file format_score level budget (r ∷ rs) tokens ≡ (
          let (included, total, dropped) =
            choose read_file format_score level budget rs (tokens + n) in
          (q ∷ included, total, dropped))
  unfolding choose
  choose_fits level budget r rs tokens q n found fits = rw (found, choose) (rw (fits, choose) refl)

  choose-IsChosen :
      (level : Level) (budget : ℕ) (rs : List Result) (tokens : ℕ)
      → IsChosen level budget rs tokens (choose read_file format_score level budget rs tokens)
  choose-IsChosen level budget [] tokens =
      unfold choose in
      record { all = omega arith; bounded = omega arith; measured = λ above. omega arith }
  choose-IsChosen level budget (r ∷ rs) tokens =
      elim (Option-cases (candidate read_file format_score level r)) [
        | inl dropped ↦
            let rest = choose-IsChosen level budget rs tokens in
            rw (choose_dropped level budget r rs tokens dropped) (record {
              all = omega (arith, rest.all);
              bounded = rest.bounded;
              measured = rest.measured;
            })
        | inr ((q, n), found) ↦
            let fewer = choose-IsChosen level budget rs tokens in
            let more = choose-IsChosen level budget rs (tokens + n) in
            let later = (choose read_file format_score level budget rs (tokens + n)).0 in
            elim (Bool-cases (ltb budget (tokens + n))) [
              | inl over ↦ rw (choose_over level budget r rs tokens q n found over) (record {
                all = omega (arith, fewer.all);
                bounded = fewer.bounded;
                measured = fewer.measured;
              })
              | inr fits ↦
                  let room : tokens + n ≤ budget = ground arith in
                  rw (choose_fits level budget r rs tokens q n found fits) (record {
                    all = omega (arith, more.all);
                    bounded = omega (arith, more.bounded);
                    measured = λ above.
                        let one = candidate-shown level r q n above found in
                        let rest = more.measured above in
                        let size =
                          length-append (shown read_file format_score level q)
                            (show_all read_file format_score level later) in
                        omega (arith, one, rest, size);
                  })
            ]
      ]

  insert_by_score-length :
      (r : Result) (rs : List Result) → length (insert_by_score r rs) ≡ suc (length rs)
  unfolding insert_by_score
  insert_by_score-length r [] = refl
  insert_by_score-length r (q ∷ qs) = elim (Bool-cases (ltb r.score q.score)) [
    | inl lower ↦ rw lower (ap suc (insert_by_score-length r qs))
    | inr higher ↦ rw higher refl
  ]

  by_score-length : (rs : List Result) → length (by_score rs) ≡ length rs
  unfolding by_score
  by_score-length [] = refl
  by_score-length (r ∷ rs) = insert_by_score-length r (by_score rs) ∙ ap suc (by_score-length rs)

  -- `Build` selects or drops every result, counts no more tokens than its budget, and, above the
  -- level of file names, makes a context of at most four bytes for each counted token and three
  -- more for each selected result.
  pub build-bounded :
      (b : Builder) (results : List Result)
      → let (text, m) = build read_file format_score b results in
        (m.files_selected + m.files_dropped ≡ m.total_results)
        × (m.tokens ≤ m.token_budget)
        × ((is_level0 b.level ≡ true) ⊎ (length text ≤ m.tokens * 4 + m.files_selected * 3))
  unfolding build
  build-bounded b results =
      let c = choose-IsChosen b.level b.token_budget (by_score results) 0 in
      (
        c.all ∙ by_score-length results,
        omega (arith, c.bounded),
        elim (Bool-cases (is_level0 b.level)) [
          | inl names ↦ inl names
          | inr above ↦ inr (omega (arith, c.measured above))
        ],
      )
