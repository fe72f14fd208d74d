-- ===== src/Memory/Lookups.antt =====
-- internal/kmemory/kmemory.go: what `Lookup` finds behind `Store`.
use mathlib.Core.Logic.{ite, if_pos, if_neg}
use costwise_mcp.Prelude.{
  ℕ, ◌≡◌, ◌≢◌, refl, ap, sym, ◌∙◌, inl, inr, ◌∷◌, ◌++◌, Option, none, some, Bytes, bytes_discrete,
  lookup, lookup-delete_ne, to_lower, Option-cases,
}
use costwise_mcp.Memory.{
  KnowledgeType, KnowledgeType-discrete, KnowledgeEntry, KnowledgeMemory, entry_key, type_name,
  stored, used, store, find,
}
use costwise_mcp.Memory.Keys.{entry_key-injective}

-- what `Lookup` returns, over the entry that it finds
abbrev touched : ℕ → Option KnowledgeEntry → Option KnowledgeEntry
touched now o = elim o [ none ↦ none | some e ↦ some (used now e) ]

find-touched :
    (type : KnowledgeType) (key : Bytes) (now : ℕ) (km : KnowledgeMemory)
    → (find type key now km).1 ≡ touched now (lookup bytes_discrete (entry_key type key) km.entries)
unfolding find
find-touched type key now km =
    elim (Option-cases (lookup bytes_discrete (entry_key type key) km.entries)) [
      | inl free ↦ rw (free, find) refl
      | inr (e, there) ↦ rw (there, find) refl
    ]

found_self :
    (type : KnowledgeType) (key : Bytes) (entry : KnowledgeEntry) (now : ℕ) (q : Bytes)
    (km : KnowledgeMemory)
    → entry_key type key ≡ q
    → lookup bytes_discrete q (store type key entry now km).entries
      ≡ some (stored type key entry now)
unfolding store
found_self type key entry now q km same = if_pos (bytes_discrete (entry_key type key) q) same _ _

found_ne :
    (type : KnowledgeType) (key : Bytes) (entry : KnowledgeEntry) (now : ℕ) (q : Bytes)
    (km : KnowledgeMemory)
    → entry_key type key ≢ q
    → lookup bytes_discrete q (store type key entry now km).entries
      ≡ lookup bytes_discrete q km.entries
unfolding store
found_ne type key entry now q km other =
    if_neg (bytes_discrete (entry_key type key) q) other _ _
    ∙ lookup-delete_ne bytes_discrete (entry_key type key) q km.entries (λ x. other (sym x))

-- Behind `Store`, `Lookup` finds the new entry, used once more, under its type and every spelling
-- of its key in other letters, and under any other type or key what it found before.
pub find-store :
    (type type' : KnowledgeType) (key key' : Bytes) (entry : KnowledgeEntry) (now later : ℕ)
    (km : KnowledgeMemory)
    → (find type' key' later (store type key entry now km)).1
      ≡ ite
          (KnowledgeType-discrete type type')
          (ite
            (bytes_discrete (to_lower key) (to_lower key'))
            (some (used later (stored type key entry now)))
            (find type' key' later km).1)
          (find type' key' later km).1
find-store type type' key key' entry now later km =
    let t = store type key entry now km in
    let ek = entry_key type key in
    let ek' = entry_key type' key' in
    let e = stored type key entry now in
    let before = sym (find-touched type' key' later km) in
    find-touched type' key' later t ∙ elim (KnowledgeType-discrete type type') [
      | no other ↦
          ap (touched later) (
            found_ne type key entry now ek' km
              (λ x. other (entry_key-injective type type' key key' x).0))
          ∙ (before ∙ sym (if_neg (KnowledgeType-discrete type type') other _ _))
      | yes same ↦ elim (bytes_discrete (to_lower key) (to_lower key')) [
        | no other ↦
            ap (touched later) (
              found_ne type key entry now ek' km
                (λ x. other (entry_key-injective type type' key key' x).1))
            ∙ (before
                ∙ (sym (if_neg (bytes_discrete (to_lower key) (to_lower key')) other _ _)
                    ∙ sym (if_pos (KnowledgeType-discrete type type') same _ _)))
        | yes spelled ↦
            let one : ek ≡ ek' =
              ap (λ (u : KnowledgeType). entry_key u key) same
              ∙ ap (λ (s : Bytes). type_name type' ++ (b':' ∷ s)) spelled in
            ap (touched later) (found_self type key entry now ek' km one)
            ∙ (sym (if_pos (bytes_discrete (to_lower key) (to_lower key')) spelled _ _)
                ∙ sym (if_pos (KnowledgeType-discrete type type') same _ _))
      ]
    ]
