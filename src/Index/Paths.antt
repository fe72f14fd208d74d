-- ===== src/Index/Paths.antt =====
-- internal/treesitter/language.go and the directories that the walk leaves out
-- (internal/retrieval/treesitter.go). Paths are clean, with slashes.
use mathlib.Core.List.{reverse}
use costwise_mcp.Prelude.{
  Bool, true, false, List, [], ◌∷◌, Option, none, some, Bytes, codes, bytes_eq, ◌==◌, if◌then◌else◌,
  to_lower, ◌≡◌, refl,
}

-- the bytes behind the last slash, over the path read from its end
abbrev until_slash : Bytes → Bytes → Bytes
until_slash [] out = out
until_slash (c ∷ s) out = elim (c == b'/') [ true ↦ out | false ↦ until_slash s (c ∷ out) ]

-- `filepath.Base`
abbrev pub base : Bytes → Bytes
base path = until_slash (reverse path) []

-- `filepath.Ext`: from the last dot, if one stands behind the last slash
abbrev ext_from : Bytes → Bytes → Bytes
ext_from [] out = []
ext_from (c ∷ s) out = elim (c == b'/') [
  | true ↦ []
  | false ↦ elim (c == b'.') [ true ↦ c ∷ out | false ↦ ext_from s (c ∷ out) ]
]

abbrev pub ext : Bytes → Bytes
ext path = ext_from (reverse path) []

abbrev pub one_of : Bytes → List Bytes → Bool
one_of s [] = false
one_of s (t ∷ ts) = let rest = one_of s ts in if bytes_eq s t then true else rest

pub data Language : Type 0 where
  go python javascript typescript rust java c cpp csharp ruby php : Language

-- `DetectLanguage`, the extensions registered in internal/treesitter/langspec.go included
unfoldable pub detect_language : Bytes → Option Language
detect_language path =
    let e = to_lower (ext path) in
    if bytes_eq e (codes ".go")
    then some go
    else if bytes_eq e (codes ".py")
    then some python
    else if one_of e (codes ".js" ∷ codes ".jsx" ∷ codes ".mjs" ∷ [])
    then some javascript
    else if one_of e (codes ".ts" ∷ codes ".tsx" ∷ [])
    then some typescript
    else if bytes_eq e (codes ".rs")
    then some rust
    else if bytes_eq e (codes ".java")
    then some java
    else if one_of e (codes ".c" ∷ codes ".h" ∷ [])
    then some c
    else if one_of e (codes ".cpp" ∷ codes ".cc" ∷ codes ".cxx" ∷ codes ".hpp" ∷ codes ".hh" ∷ [])
    then some cpp
    else if bytes_eq e (codes ".cs")
    then some csharp
    else if bytes_eq e (codes ".rb")
    then some ruby
    else if bytes_eq e (codes ".php")
    then some php
    else none

unfoldable pub is_supported : Bytes → Bool
unfolding detect_language
is_supported path = elim (detect_language path) [ none ↦ false | some _ ↦ true ]

abbrev pub skipped_names : List Bytes
skipped_names =
    codes ".git"
    ∷ codes "node_modules"
    ∷ codes "vendor"
    ∷ codes ".venv"
    ∷ codes "venv"
    ∷ codes "__pycache__"
    ∷ codes ".next"
    ∷ codes "dist"
    ∷ codes "build"
    ∷ codes "target"
    ∷ codes ".idea"
    ∷ codes ".vscode"
    ∷ codes ".DS_Store"
    ∷ codes ".mycli-fts"
    ∷ []

unfoldable pub skip_dir : Bytes → Bool
skip_dir path = one_of (base path) skipped_names

path_samples :
    (base (codes "/home/a/main.go") ≡ codes "main.go")
    × (detect_language (codes "/home/a/x.y/Main.GO") ≡ some go)
    × (detect_language (codes "/home/a.go/README") ≡ none)
    × (skip_dir (codes "/w/build") ≡ true)
unfolding detect_language skip_dir
path_samples = (refl, refl, refl, refl)
