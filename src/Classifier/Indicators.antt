-- ===== src/Classifier/Indicators.antt =====
-- internal/classifier/classifier.go: the words and phrases that the scores look for.
use costwise_mcp.Prelude.{List, [], ◌∷◌, Bytes, codes}

abbrev pub symbol_indicators : List Bytes
symbol_indicators =
    codes "implemented"
    ∷ codes "defined"
    ∷ codes "declared"
    ∷ codes "function"
    ∷ codes "method"
    ∷ codes "class"
    ∷ codes "struct"
    ∷ codes "interface"
    ∷ codes "type"
    ∷ codes "variable"
    ∷ codes "constant"
    ∷ codes "field"
    ∷ codes "property"
    ∷ codes "func"
    ∷ codes "def"
    ∷ codes "definition"
    ∷ codes "implementation"
    ∷ codes "export"
    ∷ codes "import"
    ∷ codes "package"
    ∷ codes "module"
    ∷ codes "constructor"
    ∷ codes "alias"
    ∷ []

abbrev pub text_question_words : List Bytes
text_question_words = codes "how" ∷ codes "what" ∷ codes "why" ∷ codes "when" ∷ []

abbrev pub text_action_words : List Bytes
text_action_words =
    codes "find"
    ∷ codes "search"
    ∷ codes "explain"
    ∷ codes "describe"
    ∷ codes "show"
    ∷ codes "tell"
    ∷ codes "list"
    ∷ codes "work"
    ∷ codes "handle"
    ∷ codes "process"
    ∷ codes "manage"
    ∷ codes "connect"
    ∷ codes "configure"
    ∷ codes "setup"
    ∷ codes "use"
    ∷ codes "using"
    ∷ codes "usage"
    ∷ codes "example"
    ∷ codes "pattern"
    ∷ codes "error"
    ∷ codes "bug"
    ∷ codes "fix"
    ∷ codes "test"
    ∷ codes "debug"
    ∷ codes "performance"
    ∷ codes "optimize"
    ∷ []

abbrev pub call_patterns : List Bytes
call_patterns =
    codes "who calls "
    ∷ codes "find callers of "
    ∷ codes "show callers of "
    ∷ codes "show call sites of "
    ∷ []

abbrev pub call_action_words : List Bytes
call_action_words = codes "calls" ∷ codes "callers" ∷ codes "call sites" ∷ codes "called by" ∷ []

abbrev pub ref_patterns : List Bytes
ref_patterns =
    codes "who uses "
    ∷ codes "who imports "
    ∷ codes "find references to "
    ∷ codes "find usages of "
    ∷ codes "find all references to "
    ∷ codes "show references to "
    ∷ codes "show imports of "
    ∷ codes "which files reference "
    ∷ codes "which files import "
    ∷ codes "references to "
    ∷ codes "usages of "
    ∷ codes "imports of "
    ∷ codes "files that import "
    ∷ codes "files referencing "
    ∷ codes "dependents of "
    ∷ codes "dependants of "
    ∷ []

abbrev pub ref_action_words : List Bytes
ref_action_words =
    codes "references"
    ∷ codes "usages"
    ∷ codes "imports"
    ∷ codes "exports"
    ∷ codes "dependents"
    ∷ codes "dependants"
    ∷ codes "callers"
    ∷ codes "call sites"
    ∷ []

abbrev pub arch_indicators : List Bytes
arch_indicators =
    codes "architecture"
    ∷ codes "mechanism"
    ∷ codes "workflow"
    ∷ codes "lifecycle"
    ∷ codes "system"
    ∷ codes "design"
    ∷ []

abbrev pub repo_indicators : List Bytes
repo_indicators =
    codes "about"
    ∷ codes "overview"
    ∷ codes "purpose"
    ∷ codes "summary"
    ∷ codes "description"
    ∷ codes "introduction"
    ∷ codes "architecture"
    ∷ codes "design"
    ∷ codes "structure"
    ∷ codes "goal"
    ∷ codes "objective"
    ∷ codes "motivation"
    ∷ codes "features"
    ∷ codes "capabilities"
    ∷ codes "scope"
    ∷ codes "readme"
    ∷ codes "getting started"
    ∷ codes "quick start"
    ∷ codes "installation"
    ∷ codes "tutorial"
    ∷ codes "guide"
    ∷ codes "contributing"
    ∷ codes "license"
    ∷ codes "changelog"
    ∷ codes "roadmap"
    ∷ codes "this project"
    ∷ codes "this repo"
    ∷ codes "project is"
    ∷ codes "project does"
    ∷ codes "the project"
    ∷ codes "project organized"
    ∷ codes "the codebase"
    ∷ codes "this codebase"
    ∷ []

abbrev pub repo_word_indicators : List Bytes
repo_word_indicators = codes "project" ∷ codes "repository" ∷ codes "codebase" ∷ []

abbrev pub repo_phrase_patterns : List Bytes
repo_phrase_patterns =
    codes "what does"
    ∷ codes "how does"
    ∷ codes "what is"
    ∷ codes "how is"
    ∷ codes "what are"
    ∷ codes "how are"
    ∷ codes "describe this"
    ∷ codes "what problem"
    ∷ []
