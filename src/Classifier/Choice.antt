-- ===== src/Classifier/Choice.antt =====
-- internal/classifier/classifier.go: how `Classify` chooses by the scores.
use costwise_mcp.Prelude.{
  ℕ, ◌+◌, ◌≤◌, ◌<◌, ◌≡◌, ◌⊎◌, ◌↔◌, refl, inl, inr, Bool, true, false, ◌&&◌, List, [], ◌∷◌, Bytes,
  ltb, leb, ◌==◌, if◌then◌else◌, arith, Bool-cases, codes, to_lower, trim_space, fields, ◌≢◌,
}
use costwise_mcp.Classifier.Scores.{Floats, Score, score_call, score_reference}
use costwise_mcp.Classifier.{QueryClass, Classification, weigh, classify, class_name}
use costwise_mcp.Classifier

-- the class by the scores alone
abbrev class_of : ℕ → ℕ → ℕ → ℕ → ℕ → ℕ → QueryClass
class_of total sym txt rep arch flw =
    if total == 0
    then QueryClass.text
    else if ltb sym arch && (ltb txt arch && (ltb rep arch && ltb flw arch))
    then QueryClass.architecture
    else if ltb sym flw && (ltb txt flw && (ltb rep flw && ltb arch flw))
    then QueryClass.flow
    else if leb txt sym && (leb rep sym && ltb 0 sym)
    then QueryClass.symbol
    else if ltb rep txt && ltb 0 txt
    then QueryClass.text
    else if ltb 0 rep
    then QueryClass.repository
    else QueryClass.text

-- the score of a class; the searches for calls and references are not weighed
abbrev pub value_of : ℕ → ℕ → ℕ → ℕ → ℕ → QueryClass → ℕ
value_of sym txt rep arch flw QueryClass.symbol = sym
value_of sym txt rep arch flw QueryClass.text = txt
value_of sym txt rep arch flw QueryClass.repository = rep
value_of sym txt rep arch flw QueryClass.reference = 0
value_of sym txt rep arch flw QueryClass.call = 0
value_of sym txt rep arch flw QueryClass.architecture = arch
value_of sym txt rep arch flw QueryClass.flow = flw

-- no score is above `best`, but for architecture and flow when these two are the same
abbrev pub IsBest : ℕ → ℕ → ℕ → ℕ → ℕ → ℕ → Type 0
IsBest sym txt rep arch flw best =
    (sym ≤ best) × (txt ≤ best) × (rep ≤ best) × (((arch ≤ best) × (flw ≤ best)) ⊎ (arch ≡ flw))

above_all :
    (best a b c d : ℕ)
    → (ltb a best && (ltb b best && (ltb c best && ltb d best))) ≡ true
    → (a < best) × (b < best) × (c < best) × (d < best)
above_all best a b c d h = ground arith

-- when neither of two is above the rest, they are the same or not above the best of the rest
no_winner :
    (a b c best x y : ℕ)
    → a ≤ best
    → b ≤ best
    → c ≤ best
    → (ltb a x && (ltb b x && (ltb c x && ltb y x))) ≡ false
    → (ltb a y && (ltb b y && (ltb c y && ltb x y))) ≡ false
    → ((x ≤ best) × (y ≤ best)) ⊎ (x ≡ y)
no_winner a b c best x y p q r f g = ground arith

-- the class among the first three
abbrev plain_class : ℕ → ℕ → ℕ → QueryClass
plain_class sym txt rep =
    if leb txt sym && (leb rep sym && ltb 0 sym)
    then QueryClass.symbol
    else if ltb rep txt && ltb 0 txt
    then QueryClass.text
    else if ltb 0 rep
    then QueryClass.repository
    else QueryClass.text

plain_class_max :
    (sym txt rep arch flw : ℕ)
    → let best = value_of sym txt rep arch flw (plain_class sym txt rep) in
      (sym ≤ best) × (txt ≤ best) × (rep ≤ best)
plain_class_max sym txt rep arch flw = ground arith

positive-IsBest :
    (sym txt rep arch flw : ℕ)
    → IsBest sym txt rep arch flw (value_of sym txt rep arch flw (class_of 1 sym txt rep arch flw))
positive-IsBest sym txt rep arch flw =
    elim (Bool-cases (ltb sym arch && (ltb txt arch && (ltb rep arch && ltb flw arch)))) [
      | inl a ↦
          let (p, q, r, t) = above_all arch sym txt rep flw a in
          rw a (omega arith, omega arith, omega arith, inl (omega arith, omega arith))
      | inr a ↦ elim (Bool-cases (ltb sym flw && (ltb txt flw && (ltb rep flw && ltb arch flw)))) [
        | inl f ↦
            let (p, q, r, t) = above_all flw sym txt rep arch f in
            rw (a, f) (omega arith, omega arith, omega arith, inl (omega arith, omega arith))
        | inr f ↦
            let (p, q, r) = plain_class_max sym txt rep arch flw in
            rw (a, f) (p, q, r, no_winner sym txt rep _ arch flw p q r a f)
      ]
    ]

class_of-IsBest :
    (total sym txt rep arch flw : ℕ)
    → (total ≡ 0 → sym + txt + rep + arch + flw ≡ 0)
    → IsBest sym txt rep arch flw
        (value_of sym txt rep arch flw (class_of total sym txt rep arch flw))
class_of-IsBest total sym txt rep arch flw zero_sum = elim (Bool-cases (total == 0)) [
  | inl z ↦
      let none : sym + txt + rep + arch + flw ≡ 0 = zero_sum (ground arith) in
      rw z (omega arith, omega arith, omega arith, inl (omega arith, omega arith))
  | inr z ↦ rw z (positive-IsBest sym txt rep arch flw)
]

-- the label names the class, and the confidence is at most a bound
pub record IsLabelled (bound : ℕ) (c : Classification) : Type 0 where
  pub named : c.label ≡ class_name c.class
  pub bounded : c.confidence ≤ bound

-- what is labelled in both cases is so
IsLabelled-if :
    (bound : ℕ) (b : Bool) (c d : Classification)
    → IsLabelled bound c × IsLabelled bound d
    → IsLabelled bound (if b then c else d)
IsLabelled-if bound true c d (p, q) = p
IsLabelled-if bound false c d (p, q) = q

module _ (fl : Floats) where
  weigh-class :
      (sym txt rep arch flw : Score)
      → let total =
          fl.add (fl.add (fl.add (fl.add sym.value txt.value) rep.value) arch.value) flw.value in
        (weigh fl sym txt rep arch flw).class
        ≡ class_of total sym.value txt.value rep.value arch.value flw.value
  unfolding weigh
  weigh-class sym txt rep arch flw = ground arith

  -- The class by the weighed scores has a score that no other is above, except that architecture
  -- and flow both lose when their scores are the same, provided that a sum is 0 only for zeros.
  pub weigh-IsBest :
      (sums : (x y : ℕ) → fl.add x y ≡ 0 → x + y ≡ 0) (sym txt rep arch flw : Score)
      → IsBest sym.value txt.value rep.value arch.value flw.value (
          value_of sym.value txt.value rep.value arch.value flw.value
            (weigh fl sym txt rep arch flw).class)
  weigh-IsBest sums sym txt rep arch flw =
      let a = fl.add sym.value txt.value in
      let b = fl.add a rep.value in
      let c = fl.add b arch.value in
      let zeros : fl.add c flw.value ≡ 0
          → sym.value + txt.value + rep.value + arch.value + flw.value ≡ 0 =
        λ z.
          let p = sums c flw.value z in
          let q = sums b arch.value (omega arith) in
          let r = sums a rep.value (omega arith) in
          let t = sums sym.value txt.value (omega arith) in omega arith in
      rw (weigh-class sym txt rep arch flw) (
        class_of-IsBest (fl.add c flw.value) sym.value txt.value rep.value arch.value flw.value
          zeros)

  at_most_95-le : (conf : ℕ) → Classifier.at_most_95 fl conf ≤ fl.literal 95
  at_most_95-le conf = ground arith

  won-IsLabelled :
      (class : QueryClass) (conf : ℕ) (reason : Bytes)
      → IsLabelled (fl.literal 95) (Classifier.won fl class (class_name class) conf reason)
  won-IsLabelled class conf reason = record { named = refl; bounded = at_most_95-le conf }

  module _ (half_le : fl.literal 50 ≤ fl.literal 95) where
    half-IsLabelled :
        (class : QueryClass) (reason : Bytes)
        → IsLabelled (fl.literal 95) (Classifier.half fl class (class_name class) reason)
    half-IsLabelled class reason = record { named = refl; bounded = half_le }

    weigh-IsLabelled :
        (sym txt rep arch flw : Score) → IsLabelled (fl.literal 95) (weigh fl sym txt rep arch flw)
    unfolding weigh class_name
    weigh-IsLabelled sym txt rep arch flw =
        let default = half-IsLabelled QueryClass.text (codes "default") in
        IsLabelled-if _ _ _ _ (
          default,
          IsLabelled-if _ _ _ _ (
            won-IsLabelled QueryClass.architecture _ arch.reason,
            IsLabelled-if _ _ _ _ (
              won-IsLabelled QueryClass.flow _ flw.reason,
              IsLabelled-if _ _ _ _ (
                won-IsLabelled QueryClass.symbol _ sym.reason,
                IsLabelled-if _ _ _ _ (
                  won-IsLabelled QueryClass.text _ txt.reason,
                  IsLabelled-if _ _ _ _
                      (won-IsLabelled QueryClass.repository _ rep.reason, default),
                ),
              ),
            ),
          ),
        )

    words-IsLabelled :
        (lower : Bytes) (words raw : List Bytes)
        → IsLabelled (fl.literal 95) (Classifier.classify_words fl lower words raw)
    unfolding class_name
    words-IsLabelled lower [] raw = half-IsLabelled QueryClass.repository (codes "empty query")
    words-IsLabelled lower (w ∷ ws) raw = IsLabelled-if _ _ _ _ (
      won-IsLabelled QueryClass.call _ _,
      IsLabelled-if _ _ _ _ (won-IsLabelled QueryClass.reference _ _, weigh-IsLabelled _ _ _ _ _),
    )

    -- `Classify` labels every query with the name of its class, and its confidence is at most 0.95,
    -- provided that the literal 0.5 is not above 0.95.
    pub classify-IsLabelled : (query : Bytes) → IsLabelled (fl.literal 95) (classify fl query)
    unfolding classify
    classify-IsLabelled query =
        words-IsLabelled (to_lower (trim_space query)) (fields (to_lower (trim_space query)))
          (fields (trim_space query))

  -- which of the classes the searches for calls and references leave
  abbrev is_weighed : QueryClass → Bool
  is_weighed QueryClass.call = false
  is_weighed QueryClass.reference = false
  is_weighed _ = true

  weigh-is_weighed :
      (sym txt rep arch flw : Score) → is_weighed (weigh fl sym txt rep arch flw).class ≡ true
  weigh-is_weighed sym txt rep arch flw = rw (weigh-class sym txt rep arch flw) (ground arith)

  preceding :
      (called referred : Score) (rest : Classification)
      → is_weighed rest.class ≡ true
      → let class =
          (if ltb 0 called.value
            then Classifier.won fl QueryClass.call (codes "call") called.value called.reason
            else if ltb 0 referred.value
            then Classifier.won fl QueryClass.reference
                (codes "reference")
                referred.value
                referred.reason
            else rest).class in
        ((class ≡ QueryClass.call) ↔ (0 < called.value))
        × ((class ≡ QueryClass.reference) ↔ ((called.value ≡ 0) × (0 < referred.value)))
  preceding called referred rest weighed = ground arith

  -- A query with words is of the class call exactly when the score for calls is above 0, and of the
  -- class reference exactly when that score is 0 and the one for references is above 0.
  pub classify-precedence :
      (query : Bytes)
      → fields (to_lower (trim_space query)) ≢ []
      → let lower = to_lower (trim_space query) in
        let raw = fields (trim_space query) in
        let called = (score_call fl lower raw).value in
        let referred = (score_reference fl lower raw).value in
        let class = (classify fl query).class in
        ((class ≡ QueryClass.call) ↔ (0 < called))
        × ((class ≡ QueryClass.reference) ↔ ((called ≡ 0) × (0 < referred)))
  unfolding classify
  classify-precedence query some_word =
      ordered (to_lower (trim_space query)) (fields (to_lower (trim_space query)))
        (fields (trim_space query)) some_word
    where
      ordered :
          (lower : Bytes) (words raw : List Bytes)
          → words ≢ []
          → let called = (score_call fl lower raw).value in
            let referred = (score_reference fl lower raw).value in
            let class = (Classifier.classify_words fl lower words raw).class in
            ((class ≡ QueryClass.call) ↔ (0 < called))
            × ((class ≡ QueryClass.reference) ↔ ((called ≡ 0) × (0 < referred)))
      ordered lower [] raw ne = absurd (ne refl)
      ordered lower (w ∷ ws) raw ne =
          preceding (score_call fl lower raw) (score_reference fl lower raw) _
            (weigh-is_weighed _ _ _ _ _)
