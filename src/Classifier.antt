-- ===== src/Classifier.antt =====
-- internal/classifier/classifier.go: the class of a query.
pub mod Indicators
pub mod Words
pub mod Scores
pub mod Phrases
pub mod Choice
use costwise_mcp.Prelude.{
  ℕ, zero, suc, ◌+◌, Bool, true, false, ◌&&◌, ◌||◌, List, [], ◌∷◌, Bytes, codes, ltb, leb, ◌==◌,
  if◌then◌else◌, to_lower, trim_space, fields,
}
use costwise_mcp.Classifier.Scores.{
  Floats, Score, score_call, score_reference, score_symbol, score_text, score_repo,
  score_architecture, score_flow,
}

pub data QueryClass : Type 0 where
  symbol text repository reference call architecture flow : QueryClass

-- `QueryClass.String`
unfoldable pub class_name : QueryClass → Bytes
class_name symbol = codes "symbol"
class_name text = codes "text"
class_name repository = codes "repository"
class_name reference = codes "reference"
class_name call = codes "call"
class_name architecture = codes "architecture"
class_name flow = codes "flow"

pub record Classification : Type 0 where
  pub class : QueryClass
  pub label : Bytes
  pub confidence : ℕ
  pub reason : Bytes

module _ (fl : Floats) where
  -- `if conf > 0.95 { conf = 0.95 }`
  abbrev pub at_most_95 : ℕ → ℕ
  at_most_95 conf = if ltb (fl.literal 95) conf then fl.literal 95 else conf

  abbrev pub half : QueryClass → Bytes → Bytes → Classification
  half class label reason = record {
    class = class;
    label = label;
    confidence = fl.literal 50;
    reason = reason;
  }

  abbrev pub won : QueryClass → Bytes → ℕ → Bytes → Classification
  won class label conf reason = record {
    class = class;
    label = label;
    confidence = at_most_95 conf;
    reason = reason;
  }

  -- the rest of `Classify`, behind the scores
  unfoldable pub weigh : Score → Score → Score → Score → Score → Classification
  weigh sym txt rep arch flw =
      let total =
        fl.add (fl.add (fl.add (fl.add sym.value txt.value) rep.value) arch.value) flw.value in
      if total == 0
      then half text (codes "text") (codes "default")
      else if ltb sym.value arch.value
          && (ltb txt.value arch.value && (ltb rep.value arch.value && ltb flw.value arch.value))
      then won architecture (codes "architecture") (fl.divide arch.value total) arch.reason
      else if ltb sym.value flw.value
          && (ltb txt.value flw.value && (ltb rep.value flw.value && ltb arch.value flw.value))
      then won flow (codes "flow") (fl.divide flw.value total) flw.reason
      else if leb txt.value sym.value && (leb rep.value sym.value && ltb 0 sym.value)
      then won symbol (codes "symbol") (fl.divide sym.value total) sym.reason
      else if ltb rep.value txt.value && ltb 0 txt.value
      then won text (codes "text") (fl.divide txt.value total) txt.reason
      else if ltb 0 rep.value
      then won repository (codes "repository") (fl.divide rep.value total) rep.reason
      else half text (codes "text") (codes "default")

  -- `Classify`, for the words of the query in lower case
  abbrev pub classify_words : Bytes → List Bytes → List Bytes → Classification
  classify_words lower [] raw = half repository (codes "repository") (codes "empty query")
  classify_words lower (w ∷ ws) raw =
      let called = score_call fl lower raw in
      let referred = score_reference fl lower raw in
      let sym = score_symbol fl lower raw in
      let txt = score_text fl lower (w ∷ ws) in
      let rep = score_repo fl lower (w ∷ ws) in
      let arch = score_architecture fl lower raw sym.value in
      if ltb 0 called.value
      then won call (codes "call") called.value called.reason
      else if ltb 0 referred.value
      then won reference (codes "reference") referred.value referred.reason
      else weigh sym txt rep arch (score_flow fl lower raw)

  unfoldable pub classify : Bytes → Classification
  unfolding weigh score_call score_reference score_symbol score_text score_repo score_architecture
      score_flow
  classify query =
      let trimmed = trim_space query in
      let lower = to_lower trimmed in classify_words lower (fields lower) (fields trimmed)
