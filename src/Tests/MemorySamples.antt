-- ===== src/Tests/MemorySamples.antt =====
-- internal/kmemory/kmemory.go at concrete inputs.
use mathlib.Core.Logic.{ite}
use mathlib.Core.Option.{some-injective}
use costwise_mcp.Prelude.{
  ℕ, ◌≡◌, refl, subst, map, sort_by, true, List, [], ◌∷◌, Option, none, some, Bytes, codes,
  bytes_discrete, lookup, length, to_lower, ◌==◌, if◌then◌else◌,
}
use costwise_mcp.Memory.{
  KnowledgeType, KnowledgeType-discrete, KnowledgeEntry, KnowledgeMemory, new_knowledge_memory,
  tokenize_key, is_type, all_entries, stored, used, entry_key, rank_by_overlap, store, find,
  search_type, search_all, DiskFile, FileSystem, save_to_file, load_from_file, new_symbol_entry,
  new_user_note,
}
use costwise_mcp.Memory.Lookups.{find-store}
use costwise_mcp.Memory.Ranking.{IsRanked, search-IsRanked}
use costwise_mcp.Memory.Saving.{IsKeyed, reloaded, store-find-IsKeyed, load-save}

abbrev cache_entry : KnowledgeEntry
cache_entry = new_symbol_entry (codes "NewCache") (codes "cache.go") (codes "func NewCache")

abbrev empty_memory : KnowledgeMemory
empty_memory = new_knowledge_memory

abbrev memory : KnowledgeMemory
memory = store KnowledgeType.symbol_knowledge (codes "NewCache") cache_entry 5 empty_memory

find-store_example :
    (find KnowledgeType.symbol_knowledge (codes "newcache") 9 memory).1
    ≡ ite
        (KnowledgeType-discrete KnowledgeType.symbol_knowledge KnowledgeType.symbol_knowledge)
        (ite
          (bytes_discrete (to_lower (codes "NewCache")) (to_lower (codes "newcache")))
          (some (used 9 (stored KnowledgeType.symbol_knowledge (codes "NewCache") cache_entry 5)))
          (find KnowledgeType.symbol_knowledge (codes "newcache") 9 empty_memory).1)
        (find KnowledgeType.symbol_knowledge (codes "newcache") 9 empty_memory).1
find-store_example =
    find-store KnowledgeType.symbol_knowledge KnowledgeType.symbol_knowledge (codes "NewCache")
      (codes "newcache") cache_entry 5 9 empty_memory

search-IsRanked_example :
    IsRanked
      (tokenize_key (codes "new cache"))
      (is_type KnowledgeType.symbol_knowledge)
      (all_entries memory)
      (search_type KnowledgeType.symbol_knowledge (codes "new cache") memory)
    × IsRanked
        (tokenize_key (codes "new cache"))
        (λ _. true)
        (all_entries memory)
        (search_all (codes "new cache") memory)
search-IsRanked_example = search-IsRanked KnowledgeType.symbol_knowledge (codes "new cache") memory

search_finds : length (search_all (codes "cache") memory) ≡ 1
unfolding search_all store tokenize_key rank_by_overlap sort_by
search_finds = refl

abbrev the_entry : KnowledgeEntry
the_entry = stored KnowledgeType.symbol_knowledge (codes "NewCache") cache_entry 5

-- texts of this memory's entries and of no entries
abbrev to_json : ℕ → List KnowledgeEntry → Option Bytes
to_json now [] = some (codes "0")
to_json now (e ∷ es) = some (codes "1")

abbrev of_json : Bytes → Option (List (Option KnowledgeEntry))
of_json [] = none
of_json (b ∷ s) = if b == b'1' then some (some the_entry ∷ []) else some []

codec :
    (text : Bytes)
    → to_json 8 (all_entries memory) ≡ some text
    → of_json text ≡ some (map some (all_entries memory))
unfolding store
codec text h =
    subst (λ (t : Bytes). of_json t ≡ some (some the_entry ∷ []))
      (some-injective (codes "1") text h) refl

memory-IsKeyed : IsKeyed memory
unfolding store
memory-IsKeyed =
    (store-find-IsKeyed to_json of_json KnowledgeType.symbol_knowledge (codes "NewCache")
      cache_entry 5 DiskFile.missing empty_memory (record { distinct = tt; keyed = tt })).0

-- Lookups mark an entry as used, and a load counts its uses from one.
store-find-IsKeyed_example :
    IsKeyed (
      store KnowledgeType.user_note
        (codes "Deploy")
        (new_user_note (codes "Deploy") (codes "on Fridays"))
        6
        memory)
    × IsKeyed (find KnowledgeType.user_note (codes "Deploy") 6 memory).0
    × IsKeyed (load_from_file to_json of_json (DiskFile.content (codes "1")) memory).0
store-find-IsKeyed_example =
    store-find-IsKeyed to_json of_json KnowledgeType.user_note (codes "Deploy")
      (new_user_note (codes "Deploy") (codes "on Fridays")) 6 (DiskFile.content (codes "1")) memory
      memory-IsKeyed

abbrev file_system : FileSystem
file_system = record { dir_ok = true; write_ok = true; torn = none }

saved : (save_to_file to_json of_json file_system 8 memory DiskFile.missing).1 ≡ none
unfolding save_to_file store
saved = refl

load-save_example :
    let (file, _) = save_to_file to_json of_json file_system 8 memory DiskFile.missing in
    let (loaded, error) = load_from_file to_json of_json file new_knowledge_memory in
    (error ≡ none)
    × (lookup bytes_discrete
          (entry_key KnowledgeType.symbol_knowledge (codes "NewCache"))
          loaded.entries
        ≡ reloaded (
            lookup bytes_discrete
              (entry_key KnowledgeType.symbol_knowledge (codes "NewCache"))
              memory.entries))
load-save_example =
    load-save to_json of_json file_system 8 memory DiskFile.missing
      (entry_key KnowledgeType.symbol_knowledge (codes "NewCache")) codec memory-IsKeyed saved
