-- ===== src/Classifier/Words.antt =====
-- internal/classifier/classifier.go: the tests on the words of a query, of ASCII text.
use costwise_mcp.Prelude.{
  ℕ, suc, ◌≡◌, refl, Bool, true, false, not, ◌&&◌, ◌||◌, List, [], ◌∷◌, Option, none, some, Bytes,
  codes, bytes_eq, ltb, leb, ◌==◌, if◌then◌else◌, length, drop, fields, contains,
}

module _ {ℓ} {A : Type ℓ} (p : A → Bool) where
  -- a loop that stops at the first element that passes a test
  abbrev pub any : List A → Bool
  any [] = false
  any (x ∷ xs) = p x || any xs

  -- a loop that counts those
  abbrev pub count : List A → ℕ
  count [] = 0
  count (x ∷ xs) = let rest = count xs in if p x then suc rest else rest

abbrev pub is_upper : ℕ → Bool
is_upper c = leb b'A' c && leb c b'Z'

abbrev pub is_lower : ℕ → Bool
is_lower c = leb b'a' c && leb c b'z'

abbrev in_cutset : ℕ → Bool
in_cutset c = any (◌==◌ c) (codes ".,!?;:'\"()[]{}/\\")

abbrev cut_left : Bytes → Bytes
cut_left [] = []
cut_left (c ∷ s) = let rest = cut_left s in if in_cutset c then rest else c ∷ s

abbrev cut_right : Bytes → Bytes
cut_right [] = []
cut_right (c ∷ s) = elim (cut_right s) [
  | [] ↦ if in_cutset c then [] else c ∷ []
  | d ∷ r ↦ c ∷ d ∷ r
]

-- `clean`
unfoldable pub clean : Bytes → Bytes
clean w = cut_right (cut_left w)

abbrev pub first_is : (ℕ → Bool) → Bytes → Bool
first_is p [] = false
first_is p (c ∷ s) = p c

-- the tests on a cleaned word in the loops of `scoreSymbol`
abbrev pub is_pascal : Bytes → Bool
is_pascal w = leb 2 (length w) && (first_is is_upper w && any is_upper (drop 1 w))

abbrev pub is_snake : Bytes → Bool
is_snake w = contains w (codes "_") && leb 3 (length w)

abbrev pub is_all_caps : Bytes → Bool
is_all_caps w = (leb 2 (length w) && leb (length w) 8) && not (any (λ c. not (is_upper c)) w)

abbrev pub is_camel : Bytes → Bool
is_camel w = leb 3 (length w) && (first_is is_lower w && any is_upper (drop 1 w))

-- `len(w) >= 2` and a capital first
abbrev pub is_capitalized : Bytes → Bool
is_capitalized w = leb 2 (length w) && first_is is_upper w

-- `hasSymbolPattern`
unfoldable pub has_symbol_pattern : Bytes → Bool
unfolding clean
has_symbol_pattern word =
    let w = clean word in
    if ltb (length w) 3
    then false
    else if any is_upper (drop 1 w)
    then true
    else if contains w (codes "_")
    then true
    else if contains w (codes "-")
    then true
    else is_all_caps w

-- the words from the first one on that equals a given word
abbrev pub words_from : Bytes → List Bytes → Option (List Bytes)
words_from first [] = none
words_from first (w ∷ ws) =
    let rest = words_from first ws in if bytes_eq w first then some (w ∷ ws) else rest

-- the words of a phrase that a loop over other words leaves unmatched
abbrev pub unmatched : List Bytes → List Bytes → List Bytes
unmatched [] words = []
unmatched (p ∷ ps) [] = p ∷ ps
unmatched (p ∷ ps) (w ∷ ws) =
    let matched = unmatched ps ws in
    let passed = unmatched (p ∷ ps) ws in if bytes_eq w p then matched else passed

-- `wi == len(phraseWords)`
abbrev pub none_left : List Bytes → Bool
none_left [] = true
none_left (p ∷ ps) = false

abbrev pub from_start : List Bytes → Option (List Bytes) → Bool
from_start ps none = false
from_start ps (some words) = none_left (unmatched ps words)

abbrev pub phrase_words : List Bytes → List Bytes → Bool
phrase_words [] words = false
phrase_words (p ∷ ps) words = from_start (p ∷ ps) (words_from p words)

-- `containsPhrase`
unfoldable pub contains_phrase : Bytes → Bytes → Bool
contains_phrase lower phrase = phrase_words (fields phrase) (fields lower)

words_sample :
    (clean (codes "(NewCache)?") ≡ codes "NewCache")
    × (has_symbol_pattern (codes "readFile") ≡ true)
    × (contains_phrase (codes "what exactly is this") (codes "what is") ≡ true)
unfolding clean has_symbol_pattern contains_phrase
words_sample = (refl, refl, refl)
