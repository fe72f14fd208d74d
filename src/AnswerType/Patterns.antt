-- ===== src/AnswerType/Patterns.antt =====
-- internal/answertype/classifier.go: the beginnings of queries.
use costwise_mcp.Prelude.{List, [], ◌∷◌, Bytes, codes}

abbrev pub yes_no_patterns : List Bytes
yes_no_patterns =
    codes "does this repo have "
    ∷ codes "does the codebase have "
    ∷ codes "does this project have "
    ∷ codes "is there a "
    ∷ codes "is there an "
    ∷ codes "are there "
    ∷ codes "does it support "
    ∷ codes "does it have "
    ∷ codes "does this support "
    ∷ codes "is this "
    ∷ codes "is it "
    ∷ codes "can this "
    ∷ codes "can it "
    ∷ codes "should this "
    ∷ codes "has this "
    ∷ codes "has it "
    ∷ codes "do you have "
    ∷ codes "do we have "
    ∷ []

abbrev pub location_patterns : List Bytes
location_patterns =
    codes "where is "
    ∷ codes "where are "
    ∷ codes "where can i find "
    ∷ codes "where does "
    ∷ codes "find the location"
    ∷ codes "which file "
    ∷ codes "what file "
    ∷ codes "in which file "
    ∷ codes "file path of "
    ∷ codes "location of "
    ∷ codes "path of "
    ∷ codes "find file "
    ∷ []

abbrev pub caller_patterns : List Bytes
caller_patterns =
    codes "who calls "
    ∷ codes "find callers of "
    ∷ codes "show callers of "
    ∷ codes "show call sites of "
    ∷ codes "callers of "
    ∷ codes "called by "
    ∷ codes "what calls "
    ∷ codes "which functions call "
    ∷ codes "who uses "
    ∷ codes "who imports "
    ∷ []

abbrev pub reference_patterns : List Bytes
reference_patterns =
    codes "what references "
    ∷ codes "find references to "
    ∷ codes "find usages of "
    ∷ codes "find all references to "
    ∷ codes "show references to "
    ∷ codes "references to "
    ∷ codes "usages of "
    ∷ codes "who references "
    ∷ codes "what tests cover "
    ∷ codes "test coverage for "
    ∷ codes "which tests "
    ∷ codes "what files test "
    ∷ codes "dependents of "
    ∷ codes "dependants of "
    ∷ []

abbrev pub overview_patterns : List Bytes
overview_patterns =
    codes "what does this repo do"
    ∷ codes "what does this project do"
    ∷ codes "what is this repo"
    ∷ codes "what is this project"
    ∷ codes "describe this repo"
    ∷ codes "describe this project"
    ∷ codes "summarize this repo"
    ∷ codes "summarize this repository"
    ∷ codes "summarize this project"
    ∷ codes "overview of "
    ∷ codes "summary of "
    ∷ codes "about this "
    ∷ codes "what is the purpose"
    ∷ codes "what problem does "
    ∷ codes "how does this work"
    ∷ codes "how is this organized"
    ∷ codes "what are the main "
    ∷ codes "tell me about this "
    ∷ codes "explain this repo"
    ∷ codes "explain this project"
    ∷ codes "give me an overview"
    ∷ []

abbrev pub improvement_patterns : List Bytes
improvement_patterns =
    codes "suggest improvements"
    ∷ codes "suggest improvement"
    ∷ codes "how can this be improved"
    ∷ codes "how can this be better"
    ∷ codes "how can this repo be improved"
    ∷ codes "how can this repo be better"
    ∷ codes "what should i improve"
    ∷ codes "what could be improved"
    ∷ codes "improve this repo"
    ∷ codes "improve this project"
    ∷ codes "improve the codebase"
    ∷ codes "improve the repository"
    ∷ codes "make this better"
    ∷ codes "potential improvements"
    ∷ codes "areas for improvement"
    ∷ codes "improvement suggestions"
    ∷ codes "highest impact improvement"
    ∷ codes "improvements for"
    ∷ []

abbrev pub repository_analysis_patterns : List Bytes
repository_analysis_patterns =
    codes "analyze repository"
    ∷ codes "analyze codebase"
    ∷ codes "analyze this repo"
    ∷ codes "analyze this project"
    ∷ codes "analyze this codebase"
    ∷ codes "deep analyze"
    ∷ codes "repository analysis"
    ∷ codes "codebase analysis"
    ∷ codes "deep analysis"
    ∷ codes "code analysis"
    ∷ []

abbrev pub architecture_review_patterns : List Bytes
architecture_review_patterns =
    codes "architecture review"
    ∷ codes "architecture analysis"
    ∷ codes "review architecture"
    ∷ codes "architectural review"
    ∷ codes "architectural analysis"
    ∷ codes "system architecture"
    ∷ []

abbrev pub feature_suggestion_patterns : List Bytes
feature_suggestion_patterns =
    codes "suggest features"
    ∷ codes "feature suggestion"
    ∷ codes "what features could"
    ∷ codes "new features for"
    ∷ codes "what should i add"
    ∷ codes "feature ideas"
    ∷ codes "potential features"
    ∷ codes "could add"
    ∷ []

abbrev pub explanation_patterns : List Bytes
explanation_patterns =
    codes "explain how "
    ∷ codes "how does "
    ∷ codes "how do "
    ∷ codes "how is "
    ∷ codes "how are "
    ∷ codes "how can "
    ∷ codes "what is "
    ∷ codes "what are "
    ∷ codes "what does "
    ∷ codes "why does "
    ∷ codes "why is "
    ∷ codes "why are "
    ∷ codes "explain the "
    ∷ codes "explain this "
    ∷ codes "how it works"
    ∷ []

abbrev pub plan_patterns : List Bytes
plan_patterns =
    codes "plan to "
    ∷ codes "implementation plan"
    ∷ codes "how to implement "
    ∷ codes "steps to "
    ∷ codes "design a "
    ∷ codes "create a plan"
    ∷ codes "what would it take to "
    ∷ codes "how would you implement "
    ∷ []

abbrev pub agent_patterns : List Bytes
agent_patterns =
    codes "implement "
    ∷ codes "write code to "
    ∷ codes "create a "
    ∷ codes "add a "
    ∷ codes "modify "
    ∷ codes "refactor "
    ∷ codes "fix "
    ∷ codes "update "
    ∷ codes "change "
    ∷ codes "delete "
    ∷ []
