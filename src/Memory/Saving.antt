-- ===== src/Memory/Saving.antt =====
-- internal/kmemory/kmemory.go: the keys of a memory, and the file that it is saved to.
use mathlib.Core.Logic.{if_pos, if_neg}
use costwise_mcp.Prelude.{
  ℕ, ◌≡◌, refl, ap, sym, ◌∙◌, subst, inl, inr, Bool, true, false, List, [], ◌∷◌, map, Option, none,
  some, Bytes, bytes_discrete, if◌then◌else◌, lookup, insert, delete, lookup-delete_ne, Distinct,
  insert-Distinct, All, Option-cases,
}
use costwise_mcp.Memory.{
  KnowledgeType, KnowledgeEntry, KnowledgeMemory, new_knowledge_memory, entry_key, stored, used,
  store, find, all_entries, index_entry, DiskFile, content, missing, SaveError, make_dir, marshal,
  write_file, FileSystem, failed_save, load_entries, save_to_file, load_from_file,
}

-- every entry stands under the key of its type and name
abbrev AreKeyed : List (Bytes × KnowledgeEntry) → Type 0
AreKeyed m = All (λ (r : Bytes × KnowledgeEntry). r.0 ≡ entry_key r.1.type r.1.key) m

-- and no key stands twice
pub record IsKeyed (km : KnowledgeMemory) : Type 0 where
  pub distinct : Distinct bytes_discrete km.entries
  pub keyed : AreKeyed km.entries

delete-AreKeyed :
    (k : Bytes) (m : List (Bytes × KnowledgeEntry))
    → AreKeyed m
    → AreKeyed (delete bytes_discrete k m)
delete-AreKeyed k [] h = tt
delete-AreKeyed k ((j, e) ∷ m) (key, h) = elim (bytes_discrete j k) [
  | yes p ↦ rw (if_pos (bytes_discrete j k) p) (delete-AreKeyed k m h)
  | no p ↦ rw (if_neg (bytes_discrete j k) p) (key, delete-AreKeyed k m h)
]

insert-IsKeyed :
    (k : Bytes) (e : KnowledgeEntry) (km : KnowledgeMemory) (index : List (Bytes × List Bytes))
    → k ≡ entry_key e.type e.key
    → IsKeyed km
    → IsKeyed (record { entries = insert bytes_discrete k e km.entries; index = index })
insert-IsKeyed k e km index key h = record {
  distinct = insert-Distinct bytes_discrete k e km.entries h.distinct;
  keyed = (key, delete-AreKeyed k km.entries h.keyed);
}

lookup-AreKeyed :
    (k : Bytes) (e : KnowledgeEntry) (m : List (Bytes × KnowledgeEntry))
    → AreKeyed m
    → lookup bytes_discrete k m ≡ some e
    → k ≡ entry_key e.type e.key
lookup-AreKeyed k e [] h there = absurd (cc there)
lookup-AreKeyed k e ((j, f) ∷ m) (key, h) there = elim (bytes_discrete j k) [
  | yes p ↦
      let same : f ≡ e =
        cc (sym (if_pos (bytes_discrete j k) p (some f) (lookup bytes_discrete k m)) ∙ there) in
      sym p ∙ (key ∙ ap (λ (x : KnowledgeEntry). entry_key x.type x.key) same)
  | no p ↦
      lookup-AreKeyed k e m h
        (sym (if_neg (bytes_discrete j k) p (some f) (lookup bytes_discrete k m)) ∙ there)
]

load_entries-IsKeyed :
    (es : List (Option KnowledgeEntry)) (km : KnowledgeMemory)
    → IsKeyed km
    → IsKeyed (load_entries es km).0
load_entries-IsKeyed [] km h = h
load_entries-IsKeyed (none ∷ es) km h = h
load_entries-IsKeyed (some e ∷ es) km h =
    load_entries-IsKeyed es _
      (insert-IsKeyed (entry_key e.type e.key) (record e { hit_count = 1 }) km _ refl h)

find-IsKeyed :
    (type : KnowledgeType) (key : Bytes) (now : ℕ) (km : KnowledgeMemory)
    → IsKeyed km
    → IsKeyed (find type key now km).0
unfolding find
find-IsKeyed type key now km h =
    elim (Option-cases (lookup bytes_discrete (entry_key type key) km.entries)) [
      | inl free ↦ rw (free, find) h
      | inr (e, there) ↦
          rw (there, find)
            (insert-IsKeyed (entry_key type key) (used now e) km km.index
              (lookup-AreKeyed (entry_key type key) e km.entries h.keyed there) h)
    ]

-- what is left of an entry in a file
abbrev reset : KnowledgeEntry → KnowledgeEntry
reset e = record e { hit_count = 1 }

-- an entry of the list, or else of the memory
abbrev either : Option KnowledgeEntry → Option KnowledgeEntry → Option KnowledgeEntry
either listed there = elim listed [ none ↦ there | some e ↦ some (reset e) ]

lookup-load_entries :
    (q : Bytes) (m : List (Bytes × KnowledgeEntry)) (km : KnowledgeMemory)
    → Distinct bytes_discrete m
    → AreKeyed m
    → lookup bytes_discrete q
        (load_entries (map some (map (λ (r : Bytes × KnowledgeEntry). r.1) m)) km).0.entries
      ≡ either (lookup bytes_discrete q m) (lookup bytes_discrete q km.entries)
lookup-load_entries q [] km d h = refl
lookup-load_entries q ((k, e) ∷ m) km (free, d) (key, h) =
    let ek = entry_key e.type e.key in
    let next : KnowledgeMemory = record {
      entries = insert bytes_discrete ek (reset e) km.entries;
      index = index_entry e.key ek km.index;
    } in
    lookup-load_entries q m next d h ∙ elim (bytes_discrete k q) [
      | yes p ↦
          ap (λ (o : Option KnowledgeEntry). either o (lookup bytes_discrete q next.entries))
            (ap (λ (x : Bytes). lookup bytes_discrete x m) (sym p) ∙ free)
          ∙ (if_pos (bytes_discrete ek q) (sym key ∙ p) _ _
              ∙ ap (λ (o : Option KnowledgeEntry). either o (lookup bytes_discrete q km.entries))
                  (sym (if_pos (bytes_discrete k q) p (some e) (lookup bytes_discrete q m))))
      | no p ↦
          ap (either (lookup bytes_discrete q m)) (
            if_neg (bytes_discrete ek q) (λ x. p (key ∙ x)) _ _
            ∙ lookup-delete_ne bytes_discrete ek q km.entries (λ x. p (key ∙ sym x)))
          ∙ ap (λ (o : Option KnowledgeEntry). either o (lookup bytes_discrete q km.entries))
              (sym (if_neg (bytes_discrete k q) p (some e) (lookup bytes_discrete q m)))
    ]

-- without null entries nothing panics
load_entries_fine :
    (es : List KnowledgeEntry) (km : KnowledgeMemory) → (load_entries (map some es) km).1 ≡ none
load_entries_fine [] km = refl
load_entries_fine (e ∷ es) km = load_entries_fine es _

-- what `SaveToFile` makes of its three steps
abbrev saving : Bool → Option Bytes → Bool → Option ℕ → DiskFile → DiskFile × Option SaveError
saving dir_ok json write_ok torn before =
    if dir_ok
    then elim json [
      | none ↦ (before, some marshal)
      | some text ↦
          if write_ok then (content text, none) else (failed_save torn text before, some write_file)
    ]
    else (before, some make_dir)

saving-content :
    (dir_ok : Bool) (json : Option Bytes) (write_ok : Bool) (torn : Option ℕ) (before : DiskFile)
    → (saving dir_ok json write_ok torn before).1 ≡ none
    → (text : Bytes) × (json ≡ some text)
      × ((saving dir_ok json write_ok torn before).0 ≡ content text)
saving-content false json write_ok torn before h = absurd (cc h)
saving-content true none write_ok torn before h = absurd (cc h)
saving-content true (some text) false torn before h = absurd (cc h)
saving-content true (some text) true torn before h = (text, refl, refl)

-- what is found behind a load into a new memory
abbrev pub reloaded : Option KnowledgeEntry → Option KnowledgeEntry
reloaded o = either o none

module _ (to_json : ℕ → List KnowledgeEntry → Option Bytes)
    (of_json : Bytes → Option (List (Option KnowledgeEntry))) where
  load-IsKeyed :
      (file : DiskFile) (km : KnowledgeMemory)
      → IsKeyed km
      → IsKeyed (load_from_file to_json of_json file km).0
  unfolding load_from_file
  load-IsKeyed missing km h = h
  load-IsKeyed DiskFile.unreadable km h = h
  load-IsKeyed (content text) km h = elim (Option-cases (of_json text)) [
    | inl bad ↦ rw (bad, load_from_file) h
    | inr (es, good) ↦ rw (good, load_from_file) (load_entries-IsKeyed es km h)
  ]

  -- `Store`, `Lookup` and `LoadFromFile`, on every branch, keep each entry under the key of its
  -- type and name, and no key twice.
  pub store-find-IsKeyed :
      (type : KnowledgeType) (key : Bytes) (entry : KnowledgeEntry) (now : ℕ) (file : DiskFile)
      (km : KnowledgeMemory)
      → IsKeyed km
      → IsKeyed (store type key entry now km)
        × IsKeyed (find type key now km).0
        × IsKeyed (load_from_file to_json of_json file km).0
  unfolding store
  store-find-IsKeyed type key entry now file km h = (
    insert-IsKeyed (entry_key type key) (stored type key entry now) km
        (index_entry key (entry_key type key) km.index) refl h,
    find-IsKeyed type key now km h,
    load-IsKeyed file km h,
  )

  save-content :
      (fs : FileSystem) (now : ℕ) (km : KnowledgeMemory) (before : DiskFile)
      → (save_to_file to_json of_json fs now km before).1 ≡ none
      → (text : Bytes) × (to_json now (all_entries km) ≡ some text)
        × ((save_to_file to_json of_json fs now km before).0 ≡ content text)
  unfolding save_to_file
  save-content fs now km before saved =
      saving-content fs.dir_ok (to_json now (all_entries km)) fs.write_ok fs.torn before saved

  -- If encoding/json reads the text that it makes of the entries of a memory back as these entries,
  -- and the entries stand under their keys, then the memory, saved without an error to a file and
  -- loaded into a new one, has the same entries under the same keys, with their uses counted from
  -- one.
  pub load-save :
      (fs : FileSystem) (now : ℕ) (km : KnowledgeMemory) (before : DiskFile) (q : Bytes)
      → ((text : Bytes)
          → to_json now (all_entries km) ≡ some text
          → of_json text ≡ some (map some (all_entries km)))
      → IsKeyed km
      → (save_to_file to_json of_json fs now km before).1 ≡ none
      → let (file, _) = save_to_file to_json of_json fs now km before in
        let (loaded, error) = load_from_file to_json of_json file new_knowledge_memory in
        (error ≡ none)
        × (lookup bytes_discrete q loaded.entries ≡ reloaded (lookup bytes_discrete q km.entries))
  unfolding load_from_file
  load-save fs now km before q codec h saved =
      let (text, good, file) = save-content fs now km before saved in
      subst
        (λ (f : DiskFile).
          ((load_from_file to_json of_json f new_knowledge_memory).1 ≡ none)
          × (lookup bytes_discrete q
                (load_from_file to_json of_json f new_knowledge_memory).0.entries
              ≡ reloaded (lookup bytes_discrete q km.entries)))
        (sym file)
        (rw (codec text good, load_from_file)
          (
            load_entries_fine (all_entries km) new_knowledge_memory,
            lookup-load_entries q km.entries new_knowledge_memory h.distinct h.keyed,
          ))
