-- ===== src/Pipeline/Gate.antt =====
-- internal/retrieval/pipeline.go: which results pass the gate.
use costwise_mcp.Prelude.{
  ℕ, ◌≡◌, refl, false, not, ◌&&◌, ◌||◌, List, [], ◌∷◌, Bytes, leb, length, arith,
}
use costwise_mcp.AnswerType.{AnswerType}
use costwise_mcp.Pipeline.{check_quality_gate, wants_short, needs_evidence}

-- the score of the first result
abbrev pub top_score : List ℕ → ℕ
top_score [] = 0
top_score (top ∷ scores) = top

short_or_evidence : (type : AnswerType) → (wants_short type && needs_evidence type) ≡ false
short_or_evidence AnswerType.yes_no = refl
short_or_evidence AnswerType.location = refl
short_or_evidence AnswerType.reference = refl
short_or_evidence AnswerType.caller = refl
short_or_evidence AnswerType.overview = refl
short_or_evidence AnswerType.explanation = refl
short_or_evidence AnswerType.plan = refl
short_or_evidence AnswerType.agent = refl
short_or_evidence AnswerType.improvement = refl
short_or_evidence AnswerType.repository_analysis = refl
short_or_evidence AnswerType.architecture_review = refl
short_or_evidence AnswerType.feature_suggestion = refl

-- The gate lets results through if the first one scores 0.15 at least and, for an answer that
-- needs evidence, there are three of them at least, and otherwise never.
pub check_quality_gate-passed :
    (format_score : ℕ → Bytes) (scores : List ℕ) (type : AnswerType)
    → (check_quality_gate format_score scores type).passed
      ≡ (leb 150000 (top_score scores) && (not (needs_evidence type) || leb 3 (length scores)))
unfolding check_quality_gate
check_quality_gate-passed format_score [] type = refl
check_quality_gate-passed format_score (top ∷ scores) type =
    let exclusive = short_or_evidence type in ground arith
