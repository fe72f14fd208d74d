-- ===== src/AnswerType/Upper.antt =====
-- internal/answertype/classifier.go: the search for a capital in a short query.
use costwise_mcp.Prelude.{
  ℕ, ◌≡◌, refl, ap, ◌∙◌, inl, inr, Bool, false, ◌&&◌, ◌||◌, [], ◌∷◌, ◌++◌, Bytes, leb, length,
  lower_byte, to_lower, trim_space, fields, fields_from, is_space, All, arith, Bool-cases,
}
use costwise_mcp.AnswerType.{is_capital, has_upper, is_short_symbol}

abbrev IsLow : ℕ → Type 0
IsLow c = (leb b'A' c && leb c b'Z') ≡ false

abbrev StartsLow : Bytes → Type 0
StartsLow [] = Unit
StartsLow (c ∷ w) = IsLow c

lower_byte-IsLow : (c : ℕ) → IsLow (lower_byte c)
lower_byte-IsLow c = ground arith

to_lower-IsLow : (s : Bytes) → All IsLow (to_lower s)
to_lower-IsLow [] = tt
to_lower-IsLow (c ∷ s) = (lower_byte-IsLow c, to_lower-IsLow s)

is_capital_low : (c : ℕ) (w : Bytes) → IsLow c → is_capital (c ∷ w) ≡ false
is_capital_low c w low = ground arith

-- a word in progress that starts low stays so
fields_from_low :
    (cut : ℕ → Bool) (s cur : Bytes)
    → All IsLow s
    → StartsLow cur
    → has_upper (fields_from cut s cur) ≡ false
fields_from_low cut [] [] low start = refl
fields_from_low cut [] (d ∷ cur) low start = rw (is_capital_low d cur start) refl
fields_from_low cut (c ∷ s) [] (first, low) start = elim (Bool-cases (cut c)) [
  | inl ends ↦ rw (ends, has_upper, fields_from) (fields_from_low cut s [] low tt)
  | inr goes ↦ rw (goes, has_upper, fields_from) (fields_from_low cut s (c ∷ []) low first)
]
fields_from_low cut (c ∷ s) (d ∷ cur) (first, low) start = elim (Bool-cases (cut c)) [
  | inl ends ↦
      rw (ends, has_upper, fields_from, is_capital_low d cur start)
        (fields_from_low cut s [] low tt)
  | inr goes ↦
      rw (goes, has_upper, fields_from) (fields_from_low cut s (d ∷ (cur ++ c ∷ [])) low start)
]

two_of_four : (n : ℕ) → (leb n 4 && leb n 2) ≡ leb n 2
two_of_four n = ground arith

-- No word of a query in lower case begins with a capital, so the test for a short symbol passes
-- queries of at most two words and no others.
pub is_short_symbol-length :
    (query : Bytes)
    → let words = fields (to_lower (trim_space query)) in
      is_short_symbol words ≡ leb (length words) 2
is_short_symbol-length query =
    let words = fields (to_lower (trim_space query)) in
    let none_upper =
      fields_from_low is_space (to_lower (trim_space query)) [] (to_lower-IsLow (trim_space query))
        tt in
    ap (λ (b : Bool). leb (length words) 4 && (b || leb (length words) 2)) none_upper
    ∙ two_of_four (length words)
