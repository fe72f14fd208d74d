-- ===== src/Memory/Keys.antt =====
-- internal/kmemory/kmemory.go: the keys of the entries.
use costwise_mcp.Prelude.{
  ◌≡◌, refl, ap, sym, ◌∙◌, [], ◌∷◌, Bytes, codes, bytes_eq, ◌==◌, if◌then◌else◌, to_lower,
}
use costwise_mcp.Memory.{
  KnowledgeType, symbol_knowledge, caller_knowledge, reference_knowledge, grep_knowledge,
  glob_knowledge, architecture_knowledge, repo_summary, module_ownership, file_ownership, user_note,
  entry_key,
}

-- the text before the first colon, and the text behind it
name_part : Bytes → Bytes
name_part [] = []
name_part (c ∷ s) = let rest = name_part s in if c == b':' then [] else c ∷ rest

key_part : Bytes → Bytes
key_part [] = []
key_part (c ∷ s) = let rest = key_part s in if c == b':' then s else rest

-- the type that a name stands for
type_of : Bytes → KnowledgeType
type_of name =
    if bytes_eq name (codes "symbol")
    then symbol_knowledge
    else if bytes_eq name (codes "caller")
    then caller_knowledge
    else if bytes_eq name (codes "reference")
    then reference_knowledge
    else if bytes_eq name (codes "grep")
    then grep_knowledge
    else if bytes_eq name (codes "glob")
    then glob_knowledge
    else if bytes_eq name (codes "architecture")
    then architecture_knowledge
    else if bytes_eq name (codes "repo_summary")
    then repo_summary
    else if bytes_eq name (codes "module_ownership")
    then module_ownership
    else if bytes_eq name (codes "file_ownership")
    then file_ownership
    else user_note

type_of-entry_key : (t : KnowledgeType) (k : Bytes) → type_of (name_part (entry_key t k)) ≡ t
unfolding type_of name_part
type_of-entry_key symbol_knowledge k = refl
type_of-entry_key caller_knowledge k = refl
type_of-entry_key reference_knowledge k = refl
type_of-entry_key grep_knowledge k = refl
type_of-entry_key glob_knowledge k = refl
type_of-entry_key architecture_knowledge k = refl
type_of-entry_key repo_summary k = refl
type_of-entry_key module_ownership k = refl
type_of-entry_key file_ownership k = refl
type_of-entry_key user_note k = refl

key_part-entry_key : (t : KnowledgeType) (k : Bytes) → key_part (entry_key t k) ≡ to_lower k
unfolding key_part
key_part-entry_key symbol_knowledge k = refl
key_part-entry_key caller_knowledge k = refl
key_part-entry_key reference_knowledge k = refl
key_part-entry_key grep_knowledge k = refl
key_part-entry_key glob_knowledge k = refl
key_part-entry_key architecture_knowledge k = refl
key_part-entry_key repo_summary k = refl
key_part-entry_key module_ownership k = refl
key_part-entry_key file_ownership k = refl
key_part-entry_key user_note k = refl

-- Entries of different types, or of keys that differ in more than the case, have different keys.
pub entry_key-injective :
    (t u : KnowledgeType) (k l : Bytes)
    → entry_key t k ≡ entry_key u l
    → (t ≡ u) × (to_lower k ≡ to_lower l)
entry_key-injective t u k l e = (
  sym (type_of-entry_key t k)
      ∙ (ap (λ (s : Bytes). type_of (name_part s)) e ∙ type_of-entry_key u l),
  sym (key_part-entry_key t k) ∙ (ap key_part e ∙ key_part-entry_key u l),
)
