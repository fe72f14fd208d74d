-- ===== src/AnswerType/Consistency.antt =====
-- internal/answertype/classifier.go: what holds of every answer of `Classify`.
use costwise_mcp.Prelude.{
  ◌≤◌, ◌<◌, ◌≡◌, ◌≢◌, refl, inl, inr, Bool, true, false, Bytes, codes, bytes_eq, bytes_eq_iff,
  to_lower, if◌then◌else◌, arith, Bool-cases,
}
use costwise_mcp.AnswerType.{
  Classification, type_name, max_tokens, classify_query, classify, by_yes_no, by_location,
  by_caller, by_reference, by_improvement, by_repo_analysis, by_architecture, by_feature_suggestion,
  by_overview, by_plan, by_explanation, by_implementation, by_improvement_keyword,
  by_question_fallback, by_short_symbol_query, by_default,
}

-- The label is the type's name, the confidence is between a half and one, and the answer has a
-- limit on its tokens.
record IsLimited (c : Classification) : Type 0 where
  pub labelled : c.label ≡ type_name c.type
  pub likely : 50 ≤ c.confidence
  pub bounded : c.confidence ≤ 100
  pub limited : 0 < max_tokens c.type

sound :
    (c : Classification)
    → c.label ≡ type_name c.type
    → 50 ≤ c.confidence
    → c.confidence ≤ 100
    → 0 < max_tokens c.type
    → IsLimited c
sound c labelled likely bounded limited = record {
  labelled = labelled;
  likely = likely;
  bounded = bounded;
  limited = limited;
}

if_keeps :
    (b : Bool) (x y : Classification) → IsLimited x → IsLimited y → IsLimited (if b then x else y)
if_keeps true x y hx hy = hx
if_keeps false x y hx hy = hy

classify_query-IsLimited : (query : Bytes) → IsLimited (classify_query query)
unfolding classify_query type_name max_tokens
classify_query-IsLimited query =
    if_keeps _ by_yes_no _ (sound by_yes_no refl (omega arith) (omega arith) (omega arith)) (
      if_keeps _ by_location _ (sound by_location refl (omega arith) (omega arith) (omega arith)) (
        if_keeps _ by_caller _ (sound by_caller refl (omega arith) (omega arith) (omega arith)) (
          if_keeps _ by_reference _
            (sound by_reference refl (omega arith) (omega arith) (omega arith))
            (if_keeps _ by_improvement _
              (sound by_improvement refl (omega arith) (omega arith) (omega arith))
              (if_keeps _ by_repo_analysis _
                (sound by_repo_analysis refl (omega arith) (omega arith) (omega arith))
                (if_keeps _ by_architecture _
                  (sound by_architecture refl (omega arith) (omega arith) (omega arith))
                  (if_keeps _ by_feature_suggestion _
                    (sound by_feature_suggestion refl (omega arith) (omega arith) (omega arith))
                    (if_keeps _ by_overview _
                      (sound by_overview refl (omega arith) (omega arith) (omega arith))
                      (if_keeps _ by_plan _
                        (sound by_plan refl (omega arith) (omega arith) (omega arith))
                        (if_keeps _ by_explanation _
                          (sound by_explanation refl (omega arith) (omega arith) (omega arith))
                          (if_keeps _ by_implementation _
                            (sound by_implementation refl (omega arith) (omega arith) (omega arith))
                            (if_keeps _ by_improvement_keyword _
                              (sound by_improvement_keyword refl (omega arith) (omega arith)
                                (omega arith))
                              (if_keeps _ by_question_fallback _
                                (sound by_question_fallback refl (omega arith) (omega arith)
                                  (omega arith))
                                (if_keeps _ by_short_symbol_query _
                                  (sound by_short_symbol_query refl (omega arith) (omega arith)
                                    (omega arith))
                                  (sound by_default refl (omega arith) (omega arith)
                                    (omega arith))))))))))))))))

-- Whatever the query and the mode, the label of the classification is the name of its type, and
-- its confidence is between a half and one.
pub classify-labelled :
    (query mode : Bytes)
    → let c = classify query mode in
      (c.label ≡ type_name c.type) × (50 ≤ c.confidence) × (c.confidence ≤ 100)
unfolding classify type_name
classify-labelled query mode =
    let other = classify_query-IsLimited query in
    elim (Bool-cases (bytes_eq (to_lower mode) (codes "plan"))) [
      | inl planned ↦ rw planned (refl, omega arith, omega arith)
      | inr no_plan ↦ elim (Bool-cases (bytes_eq (to_lower mode) (codes "agent"))) [
        | inl by_agent ↦ rw (no_plan, by_agent) (refl, omega arith, omega arith)
        | inr neither ↦ rw (no_plan, neither) (other.labelled, other.likely, other.bounded)
      ]
    ]

limited_modes :
    (query mode : Bytes)
    → bytes_eq (to_lower mode) (codes "agent") ≡ false
    → max_tokens (classify query mode).type ≢ 0
unfolding classify max_tokens
limited_modes query mode other = elim (Bool-cases (bytes_eq (to_lower mode) (codes "plan"))) [
  | inl planned ↦ rw planned (λ e. cc e)
  | inr no_plan ↦
      let some_limit = (classify_query-IsLimited query).limited in
      rw (no_plan, other) (λ e. omega (arith, e, some_limit))
]

-- A classification whose type sets no limit on the tokens of the answer comes from the mode
-- "agent" only, in any case of its letters.
pub classify-agent :
    (query mode : Bytes) → max_tokens (classify query mode).type ≡ 0 → to_lower mode ≡ codes "agent"
unfolding classify max_tokens
classify-agent query mode free = elim (Bool-cases (bytes_eq (to_lower mode) (codes "agent"))) [
  | inl by_agent ↦ (bytes_eq_iff (to_lower mode) (codes "agent")).0 by_agent
  | inr other ↦ absurd (limited_modes query mode other free)
]
