-- ===== src/Tests/ClassifierSamples.antt =====
-- internal/classifier/classifier.go at concrete inputs.
use costwise_mcp.Prelude.{
  ℕ, ◌+◌, ◌*◌, ◌/◌, ◌<◌, ◌≡◌, ◌≢◌, ◌↔◌, refl, true, [], Bytes, codes, to_lower, trim_space, fields,
}
use costwise_mcp.Classifier.{QueryClass, weigh, classify}
use costwise_mcp.Classifier.Words.{contains_phrase}
use costwise_mcp.Classifier.Scores.{Floats, Score, score_call, score_reference}
use costwise_mcp.Classifier.Phrases.{InOrder, contains_phrase-InOrder}
use costwise_mcp.Classifier.Choice.{IsBest, value_of, weigh-IsBest, classify-precedence}

-- an arithmetic of hundredths, whose quotient by zero is zero
abbrev hundredths : Floats
hundredths = record {
  literal = λ n. n;
  of_int = λ n. n * 100;
  add = λ m n. m + n;
  multiply = λ m n. m * n / 100;
  divide = λ m n. m * 100 / n;
}

abbrev at : ℕ → Bytes → Score
at value reason = record { value = value; reason = reason }

weigh-IsBest_example : IsBest 30 25 0 90 50 (
    value_of 30 25 0 90 50
      (weigh hundredths (at 30 []) (at 25 []) (at 0 []) (at 90 []) (at 50 [])).class)
weigh-IsBest_example =
    weigh-IsBest hundredths (λ x y h. h) (at 30 []) (at 25 []) (at 0 []) (at 90 []) (at 50 [])

abbrev question : Bytes
question = codes "who calls NewCache?"

some_word : fields (to_lower (trim_space question)) ≢ []
some_word h = cc

classify-precedence_example :
    (((classify hundredths question).class ≡ QueryClass.call) ↔ (
      0
      < (score_call hundredths
          (to_lower (trim_space question))
          (fields (trim_space question))).value))
    × (((classify hundredths question).class ≡ QueryClass.reference) ↔ (
        ((score_call hundredths
            (to_lower (trim_space question))
            (fields (trim_space question))).value
          ≡ 0)
        × (0
            < (score_reference hundredths
                (to_lower (trim_space question))
                (fields (trim_space question))).value)))
classify-precedence_example = classify-precedence hundredths question some_word

what_is : fields (codes "what is") ≢ []
what_is h = cc

contains_phrase-InOrder_example :
    (contains_phrase (codes "what exactly is this") (codes "what is") ≡ true)
    ↔ InOrder (fields (codes "what is")) (fields (codes "what exactly is this"))
contains_phrase-InOrder_example =
    contains_phrase-InOrder (codes "what exactly is this") (codes "what is") what_is

-- a query whose scores for architecture and flow are the same, 1.20, and above the others
tie :
    (classify hundredths (codes "Explain the lifecycle pipeline of FooBar")).class
    ≡ QueryClass.symbol
unfolding classify
tie = refl

call_query : (classify hundredths question).class ≡ QueryClass.call
unfolding classify
call_query = refl
