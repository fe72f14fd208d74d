-- ===== src/Memory/Ranking.antt =====
-- internal/kmemory/kmemory.go: the order of the facts that a search finds.
use mathlib.Core.List.{Perm}
use mathlib.Core.List.Perm
use costwise_mcp.Prelude.{
  ℕ, ◌≡◌, refl, subst, sym, inl, inr, Bool, true, false, ◌&&◌, List, [], ◌∷◌, Bytes, ltb, ◌==◌,
  if◌then◌else◌, arith, Bool-cases, keep_if, sort_by-perm, sort_by-IsSortedBy, IsSortedBy,
  IsStrictOrder, ◌∙◌, ◌*◌, ◌+◌, ◌<◌, ◌≤◌, ◌⊎◌, ◌||◌, not, contains, to_lower, length, All,
}
use costwise_mcp.Memory.{
  KnowledgeType, KnowledgeEntry, KnowledgeMemory, tokenize_key, match_score, ranks_before,
  rank_by_overlap, all_entries, is_type, search_type, search_all,
}

-- the test on scores and times
abbrev outranks : ℕ → ℕ → ℕ → ℕ → Bool
outranks s t a b = if s == t then ltb b a else ltb t s

scores_asymmetric : (s t a b : ℕ) → outranks s t a b ≡ true → outranks t s b a ≡ false
scores_asymmetric s t a b h = ground arith

scores_cotransitive :
    (s t u a b c : ℕ)
    → outranks u t c b ≡ false
    → outranks t s b a ≡ false
    → outranks u s c a ≡ false
scores_cotransitive s t u a b c h k = ground arith

-- by the score and the last use
ranks_before-IsStrictOrder : (terms : List Bytes) → IsStrictOrder (ranks_before terms)
unfolding ranks_before
ranks_before-IsStrictOrder terms = record {
  asymmetric = λ e f h.
      scores_asymmetric (match_score e terms) (match_score f terms) e.last_used_at f.last_used_at h;
  cotransitive = λ e f g h k.
      scores_cotransitive (match_score e terms) (match_score f terms) (match_score g terms)
        e.last_used_at f.last_used_at g.last_used_at h k;
}

-- the words of an entry in which a term is looked for
abbrev in_key : KnowledgeEntry → Bytes → Bool
in_key e t = contains (to_lower e.key) t

abbrev in_text : KnowledgeEntry → Bytes → Bool
in_text e t = contains (to_lower e.value) t || contains (to_lower e.file) t

-- two for each term in the key, and one for each other term in the value or the file
abbrev pub score : List Bytes → KnowledgeEntry → ℕ
score terms e =
    2 * length (keep_if (in_key e) terms)
    + length (keep_if (λ t. not (in_key e t) && in_text e t) terms)

-- some term is in the key, the value or the file
abbrev pub matches : List Bytes → KnowledgeEntry → Bool
matches [] e = false
matches (t ∷ ts) e = in_key e t || in_text e t || matches ts e

-- an entry may stand behind another: its score is lower, or equal and its last use no later
abbrev pub IsBehind : List Bytes → KnowledgeEntry → KnowledgeEntry → Type 0
IsBehind terms e f =
    (score terms f < score terms e)
    ⊎ ((score terms f ≡ score terms e) × (f.last_used_at ≤ e.last_used_at))

abbrev pub AreInOrder : List Bytes → List KnowledgeEntry → Type 0
AreInOrder terms [] = Unit
AreInOrder terms (e ∷ es) = All (IsBehind terms e) es × AreInOrder terms es

-- what a search by terms returns
pub record IsRanked (terms : List Bytes) (keep : KnowledgeEntry → Bool)
    (all found : List KnowledgeEntry) : Type 0 where
  pub complete : Perm found (keep_if (λ e. keep e && matches terms e) all)
  pub sorted : AreInOrder terms found

match_score_lem : (e : KnowledgeEntry) (terms : List Bytes) → match_score e terms ≡ score terms e
unfolding match_score
match_score_lem e [] = refl
match_score_lem e (t ∷ ts) =
    let rest = match_score_lem e ts in
    elim (Bool-cases (contains (to_lower e.key) t)) [
      | inl key ↦ rw key (omega (arith, rest))
      | inr no_key ↦
          elim (Bool-cases (contains (to_lower e.value) t || contains (to_lower e.file) t)) [
            | inl text ↦ rw (no_key, text) (omega (arith, rest))
            | inr no_text ↦ rw (no_key, no_text) (omega (arith, rest))
          ]
    ]

ltb_zero_add : (n : ℕ) → ltb 0 (0 + n) ≡ ltb 0 n
ltb_zero_add n = ground arith

match_score-matches :
    (e : KnowledgeEntry) (terms : List Bytes) → ltb 0 (match_score e terms) ≡ matches terms e
unfolding match_score
match_score-matches e [] = refl
match_score-matches e (t ∷ ts) =
    let rest = match_score-matches e ts in
    elim (Bool-cases (contains (to_lower e.key) t)) [
      | inl key ↦ rw key (ground arith)
      | inr no_key ↦
          elim (Bool-cases (contains (to_lower e.value) t || contains (to_lower e.file) t)) [
            | inl text ↦ rw (no_key, text) (ground arith)
            | inr no_text ↦ rw (no_key, no_text) (ltb_zero_add (match_score e ts) ∙ rest)
          ]
    ]

keep_if-matches :
    (terms : List Bytes) (keep : KnowledgeEntry → Bool) (all : List KnowledgeEntry)
    → keep_if (λ e. keep e && ltb 0 (match_score e terms)) all
      ≡ keep_if (λ e. keep e && matches terms e) all
keep_if-matches terms keep [] = refl
keep_if-matches terms keep (e ∷ all) =
    rw (match_score-matches e terms, keep_if-matches terms keep all) refl

outranks-false : (s t a b : ℕ) → outranks s t a b ≡ false → (s < t) ⊎ ((s ≡ t) × (a ≤ b))
outranks-false s t a b h = elim (Bool-cases (s == t)) [
  | inl same ↦ inr (ground arith, ground arith)
  | inr other ↦ inl (ground arith)
]

-- an entry that does not rank before another may stand behind it
ranks_before-IsBehind :
    (terms : List Bytes) (e f : KnowledgeEntry)
    → ranks_before terms f e ≡ false
    → IsBehind terms e f
unfolding ranks_before
ranks_before-IsBehind terms e f h =
    subst
      (λ (s : ℕ). (s < score terms e) ⊎ ((s ≡ score terms e) × (f.last_used_at ≤ e.last_used_at)))
      (match_score_lem f terms)
      (subst
        (λ (t : ℕ).
          (match_score f terms < t)
          ⊎ ((match_score f terms ≡ t) × (f.last_used_at ≤ e.last_used_at)))
        (match_score_lem e terms)
        (outranks-false (match_score f terms) (match_score e terms) f.last_used_at e.last_used_at
          h))

All-IsBehind :
    (terms : List Bytes) (e : KnowledgeEntry) (es : List KnowledgeEntry)
    → All (λ (f : KnowledgeEntry). ranks_before terms f e ≡ false) es
    → All (IsBehind terms e) es
All-IsBehind terms e [] h = tt
All-IsBehind terms e (f ∷ es) (p, h) =
    (ranks_before-IsBehind terms e f p, All-IsBehind terms e es h)

IsSortedBy-AreInOrder :
    (terms : List Bytes) (es : List KnowledgeEntry)
    → IsSortedBy (ranks_before terms) es
    → AreInOrder terms es
IsSortedBy-AreInOrder terms [] h = tt
IsSortedBy-AreInOrder terms (e ∷ es) (top, h) =
    (All-IsBehind terms e es top, IsSortedBy-AreInOrder terms es h)

rank_by_overlap-IsRanked :
    (entries : List KnowledgeEntry) (terms : List Bytes) (keep : KnowledgeEntry → Bool)
    → IsRanked terms keep entries (rank_by_overlap entries terms keep)
unfolding rank_by_overlap
rank_by_overlap-IsRanked entries terms keep = record {
  complete =
      subst (Perm (rank_by_overlap entries terms keep)) (keep_if-matches terms keep entries)
        (sort_by-perm (ranks_before terms) _);
  sorted =
      IsSortedBy-AreInOrder terms _
        (sort_by-IsSortedBy (ranks_before terms) (ranks_before-IsStrictOrder terms) _);
}

keep_if-none :
    (keep : KnowledgeEntry → Bool) (all : List KnowledgeEntry)
    → keep_if (λ e. keep e && matches [] e) all ≡ []
keep_if-none keep [] = refl
keep_if-none keep (e ∷ all) = elim (Bool-cases (keep e)) [
  | inl kept ↦ rw kept (keep_if-none keep all)
  | inr left ↦ rw left (keep_if-none keep all)
]

no_terms-IsRanked :
    (keep : KnowledgeEntry → Bool) (all : List KnowledgeEntry) → IsRanked [] keep all []
no_terms-IsRanked keep all = record {
  complete =
      subst (λ (l : List KnowledgeEntry). Perm [] l) (sym (keep_if-none keep all)) (Perm.refl []);
  sorted = tt;
}

searched-IsRanked :
    (terms : List Bytes) (keep : KnowledgeEntry → Bool) (all : List KnowledgeEntry)
    → IsRanked terms keep all (elim terms [ [] ↦ [] | t ∷ ts ↦ rank_by_overlap all (t ∷ ts) keep ])
searched-IsRanked [] keep all = no_terms-IsRanked keep all
searched-IsRanked (t ∷ ts) keep all = rank_by_overlap-IsRanked all (t ∷ ts) keep

-- `Search` and `SearchAll` return the entries, of the type or of any, that have a term of the query
-- in their key, value or file, each as often as it is there. An entry stands behind another only if
-- its score is lower, where a term counts two in the key and else one in the value or the file, or
-- if the scores are equal and it was not used later.
pub search-IsRanked :
    (type : KnowledgeType) (query : Bytes) (km : KnowledgeMemory)
    → IsRanked (tokenize_key query) (is_type type) (all_entries km) (search_type type query km)
      × IsRanked (tokenize_key query) (λ _. true) (all_entries km) (search_all query km)
unfolding search_type search_all
search-IsRanked type query km = (
  searched-IsRanked (tokenize_key query) (is_type type) (all_entries km),
  searched-IsRanked (tokenize_key query) (λ _. true) (all_entries km),
)
