-- ===== src/Classifier/Phrases.antt =====
-- internal/classifier/classifier.go: `containsPhrase` against the order of the words.
use mathlib.Core.List.{Sublistᴰ}
use mathlib.Core.List.Sublistᴰ
use mathlib.Core.Option.{some-injective}
use costwise_mcp.Prelude.{
  ◌≡◌, ◌≢◌, ◌↔◌, refl, sym, ap, ◌∙◌, inl, inr, true, List, [], ◌∷◌, none, some, Bytes, bytes_eq,
  bytes_eq_sound, bytes_eq_self, fields, Bool-cases, Option-cases,
}
use costwise_mcp.Classifier.Words.{words_from, unmatched, none_left, phrase_words, contains_phrase}

-- the words of the phrase stand among the others in their order, not always side by side
abbrev pub InOrder : List Bytes → List Bytes → Type 0
InOrder = Sublistᴰ

from_nothing : (ws : List Bytes) → InOrder [] ws
from_nothing [] = Sublistᴰ.slnil
from_nothing (w ∷ ws) = Sublistᴰ.cons (from_nothing ws)

unmatched-InOrder : (ps ws : List Bytes) → unmatched ps ws ≡ [] → InOrder ps ws
unmatched-InOrder [] ws h = from_nothing ws
unmatched-InOrder (p ∷ ps) [] h = cc
unmatched-InOrder (p ∷ ps) (w ∷ ws) h = elim (Bool-cases (bytes_eq w p)) [
  | inl same ↦
      Sublistᴰ.cons-cons (sym (bytes_eq_sound w p same)) (unmatched-InOrder ps ws (rw same at h))
  | inr other ↦ Sublistᴰ.cons (unmatched-InOrder (p ∷ ps) ws (rw other at h))
]

InOrder-tail : (p : Bytes) (ps ws : List Bytes) → InOrder (p ∷ ps) ws → InOrder ps ws
InOrder-tail p ps [] h = elim h [ ]
InOrder-tail p ps (w ∷ ws) h = elim (Sublistᴰ.cases_cons-cons h) [
  | inl later ↦ Sublistᴰ.cons (InOrder-tail p ps ws later)
  | inr (e, here) ↦ Sublistᴰ.cons here
]

InOrder-unmatched : (ps ws : List Bytes) → InOrder ps ws → unmatched ps ws ≡ []
InOrder-unmatched [] ws h = refl
InOrder-unmatched (p ∷ ps) [] h = elim h [ ]
InOrder-unmatched (p ∷ ps) (w ∷ ws) h = elim (Bool-cases (bytes_eq w p)) [
  | inl same ↦ rw same (
      InOrder-unmatched ps ws (elim (Sublistᴰ.cases_cons-cons h) [
        | inl later ↦ InOrder-tail p ps ws later
        | inr (e, here) ↦ here
      ]))
  | inr other ↦ rw other (
      InOrder-unmatched (p ∷ ps) ws (elim (Sublistᴰ.cases_cons-cons h) [
        | inl later ↦ later
        | inr (e, here) ↦ absurd (cc (other, bytes_eq_self p, ap (λ (v : Bytes). bytes_eq v p) e))
      ]))
]

-- from the first word of the phrase on, the words are matched as from the beginning
unmatched-words_from :
    (p : Bytes) (ps ws rest : List Bytes)
    → words_from p ws ≡ some rest
    → unmatched (p ∷ ps) rest ≡ unmatched (p ∷ ps) ws
unmatched-words_from p ps [] rest h = cc
unmatched-words_from p ps (w ∷ ws) rest h = elim (Bool-cases (bytes_eq w p)) [
  | inl same ↦ ap (unmatched (p ∷ ps)) (sym (some-injective _ _ (rw same at h)))
  | inr other ↦ rw other (unmatched-words_from p ps ws rest (rw other at h))
]

unmatched-none :
    (p : Bytes) (ps ws : List Bytes) → words_from p ws ≡ none → unmatched (p ∷ ps) ws ≡ p ∷ ps
unmatched-none p ps [] h = refl
unmatched-none p ps (w ∷ ws) h = elim (Bool-cases (bytes_eq w p)) [
  | inl same ↦ absurd (cc (h, same))
  | inr other ↦ rw other (unmatched-none p ps ws (rw other at h))
]

phrase_words-found :
    (p : Bytes) (ps ws rest : List Bytes)
    → words_from p ws ≡ some rest
    → (phrase_words (p ∷ ps) ws ≡ true) ↔ InOrder (p ∷ ps) ws
phrase_words-found p ps ws rest found =
    let same = unmatched-words_from p ps ws rest found in
    (
      λ h.
          unmatched-InOrder (p ∷ ps) ws
            (sym same ∙ all_matched (unmatched (p ∷ ps) rest) (rw found at h)),
      λ o. rw (found, same, InOrder-unmatched (p ∷ ps) ws o) refl,
    )
  where
    all_matched : (l : List Bytes) → none_left l ≡ true → l ≡ []
    all_matched [] h = refl
    all_matched (q ∷ qs) h = cc

phrase_words_lem :
    (p : Bytes) (ps ws : List Bytes) → (phrase_words (p ∷ ps) ws ≡ true) ↔ InOrder (p ∷ ps) ws
phrase_words_lem p ps ws = elim (Option-cases (words_from p ws)) [
  | inl missing ↦ (
    λ h. absurd (cc (rw missing at h)),
    λ o. absurd (cc (unmatched-none p ps ws missing, InOrder-unmatched (p ∷ ps) ws o)),
  )
  | inr (rest, found) ↦ phrase_words-found p ps ws rest found
]

-- `containsPhrase` is the test for the words of a phrase, which has some, to stand among those of
-- the query in the phrase's order; other words may stand between them.
pub contains_phrase-InOrder :
    (lower phrase : Bytes)
    → fields phrase ≢ []
    → (contains_phrase lower phrase ≡ true) ↔ InOrder (fields phrase) (fields lower)
unfolding contains_phrase
contains_phrase-InOrder lower phrase ne = phrased (fields phrase) (fields lower) ne
  where
    phrased : (ps ws : List Bytes) → ps ≢ [] → (phrase_words ps ws ≡ true) ↔ InOrder ps ws
    phrased [] ws ne = absurd (ne refl)
    phrased (p ∷ ps) ws ne = phrase_words_lem p ps ws
