-- ===== src/Pipeline/Symbols.antt =====
-- internal/retrieval/pipeline.go: the symbol that a query names.
use costwise_mcp.Prelude.{
  ◌≡◌, ◌⊎◌, refl, inl, inr, Bool, true, false, List, [], ◌∷◌, ◌++◌, some, none, Bytes, codes, ltb,
  if◌then◌else◌, length, get_last?, trim_space, fields, arith, Bool-cases, All, ap, ◌∙◌, ℕ, ◌==◌,
  sym, leb, ◌&&◌, ◌||◌, keep_if,
}
use costwise_mcp.Pipeline.{
  is_camel, has_internal_upper, first_symbol, trim_right_set, extract_symbol_from_query,
  is_likely_symbol,
}

-- a word without the punctuation behind it
abbrev pub trimmed : Bytes → Bytes
trimmed w = trim_right_set w (codes "?,.:;!")

-- a capital or an underscore
abbrev is_mark : ℕ → Bool
is_mark c = (leb b'A' c && leb c b'Z') || c == b'_'

-- the form of a symbol: a capital, and behind it at least one more capital or underscore
abbrev pub has_form : Bytes → Bool
has_form [] = false
has_form (c ∷ w) = (leb b'A' c && leb c b'Z') && ltb 0 (length (keep_if is_mark w))

-- no word has the form of a symbol
abbrev pub ArePlain : List Bytes → Type 0
ArePlain = All (λ (w : Bytes). has_form (trimmed w) ≡ false)

-- the first word that has the form of a symbol, with the plain words before it
pub record IsFirst (words : List Bytes) (symbol : Bytes) : Type 0 where
  pub before : List Bytes
  pub word : Bytes
  pub after : List Bytes
  pub split : words ≡ before ++ word ∷ after
  pub plain : ArePlain before
  pub form : has_form (trimmed word) ≡ true
  pub same : symbol ≡ trimmed word

-- what a query with these words names
abbrev pub Names : List Bytes → Bytes → Type 0
Names words symbol =
    (IsFirst words symbol × (is_likely_symbol symbol ≡ true))
    ⊎ (ArePlain words × (symbol ≡ elim (get_last? words) [ none ↦ [] | some w ↦ w ]))

is_camel-length : (w : Bytes) → is_camel w ≡ true → ltb (length w) 2 ≡ false
is_camel-length [] h = absurd (cc h)
is_camel-length (c ∷ w) h = ground arith

is_camel-is_likely_symbol : (s : Bytes) → is_camel s ≡ true → is_likely_symbol s ≡ true
unfolding is_likely_symbol
is_camel-is_likely_symbol s camel = rw (is_camel-length s camel, camel) refl

has_internal_upper-keep_if : (w : Bytes) → has_internal_upper w ≡ ltb 0 (length (keep_if is_mark w))
has_internal_upper-keep_if [] = refl
has_internal_upper-keep_if (c ∷ w) = ground (arith, has_internal_upper-keep_if w)

is_camel-has_form : (w : Bytes) → is_camel w ≡ has_form w
is_camel-has_form [] = refl
is_camel-has_form (c ∷ []) = ground arith
is_camel-has_form (c ∷ d ∷ w) = ground (arith, has_internal_upper-keep_if (d ∷ w))

first_symbol_lem :
    (ws : List Bytes)
    → ((s : Bytes) × (first_symbol ws ≡ some s) × IsFirst ws s)
      ⊎ ((first_symbol ws ≡ none) × ArePlain ws)
first_symbol_lem [] = inr (refl, tt)
first_symbol_lem (w ∷ ws) = elim (Bool-cases (is_camel (trim_right_set w (codes "?,.:;!")))) [
  | inl camel ↦ inl (
    trimmed w,
    ap (λ (b : Bool). if b then some (trimmed w) else first_symbol ws) camel,
    record {
      before = [];
      word = w;
      after = ws;
      split = refl;
      plain = tt;
      form = sym (is_camel-has_form (trimmed w)) ∙ camel;
      same = refl;
    },
  )
  | inr other ↦
      let step : first_symbol (w ∷ ws) ≡ first_symbol ws =
        ap (λ (b : Bool). if b then some (trimmed w) else first_symbol ws) other in
      elim (first_symbol_lem ws) [
        | inl (s, found, first) ↦ inl (
          s,
          step ∙ found,
          record {
            before = w ∷ first.before;
            word = first.word;
            after = first.after;
            split = ap (◌∷◌ w) first.split;
            plain = (sym (is_camel-has_form (trimmed w)) ∙ other, first.plain);
            form = first.form;
            same = first.same;
          },
        )
        | inr (free, plain) ↦
            inr (step ∙ free, (sym (is_camel-has_form (trimmed w)) ∙ other, plain))
      ]
]

-- The symbol of a query is, without the punctuation behind it, its first word that begins with a
-- capital and has one more capital or underscore behind it, and `IsLikelySymbol` accepts it; or no
-- word of the query has this form, and the symbol is the last word, or nothing without words.
pub extract_symbol_from_query-likely :
    (query : Bytes) → Names (fields (trim_space query)) (extract_symbol_from_query query)
unfolding extract_symbol_from_query
extract_symbol_from_query-likely query = elim (first_symbol_lem (fields (trim_space query))) [
  | inl (s, found, first) ↦ inl (
      rw (found, extract_symbol_from_query)
        (
          first,
          rw first.same (
              is_camel-is_likely_symbol (trimmed first.word)
                (is_camel-has_form (trimmed first.word) ∙ first.form)),
        ))
  | inr (free, plain) ↦ inr (plain, rw (free, extract_symbol_from_query) refl)
]
