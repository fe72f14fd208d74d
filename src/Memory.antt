-- ===== src/Memory.antt =====
-- internal/kmemory/kmemory.go: facts about a repository, by type and key. Every `Store` is given
-- an entry of its own, so an entry is a value. A confidence is in hundredths. A file that is loaded
-- has no entry of an unknown type.
pub mod Keys
pub mod Lookups
pub mod Ranking
pub mod Saving
use costwise_mcp.Prelude.{
  ℕ, zero, suc, ◌+◌, Bool, true, false, not, ◌&&◌, ◌||◌, List, [], ◌∷◌, ◌++◌, map, Option, none,
  some, Bytes, codes, bytes_eq, bytes_discrete, ltb, leb, ◌==◌, if◌then◌else◌, lookup, insert,
  length, take, to_lower, contains, fields_func, join, keep_if, sort_by,
}

pub data KnowledgeType : Type 0 where
  symbol_knowledge caller_knowledge reference_knowledge grep_knowledge glob_knowledge
        architecture_knowledge repo_summary module_ownership file_ownership user_note :
      KnowledgeType

unfoldable pub KnowledgeType-discrete : Discrete KnowledgeType
KnowledgeType-discrete = hlevel

-- `KnowledgeType.String`
abbrev pub type_name : KnowledgeType → Bytes
type_name symbol_knowledge = codes "symbol"
type_name caller_knowledge = codes "caller"
type_name reference_knowledge = codes "reference"
type_name grep_knowledge = codes "grep"
type_name glob_knowledge = codes "glob"
type_name architecture_knowledge = codes "architecture"
type_name repo_summary = codes "repo_summary"
type_name module_ownership = codes "module_ownership"
type_name file_ownership = codes "file_ownership"
type_name user_note = codes "user_note"

pub record KnowledgeEntry : Type 0 where
  pub type : KnowledgeType
  pub key : Bytes
  pub value : Bytes
  pub metadata : List Bytes
  pub file : Bytes
  pub line : ℕ
  pub confidence : ℕ
  pub created_at : ℕ
  pub last_used_at : ℕ
  pub hit_count : ℕ

pub record KnowledgeMemory : Type 0 where
  pub entries : List (Bytes × KnowledgeEntry)
  pub index : List (Bytes × List Bytes)

abbrev pub new_knowledge_memory : KnowledgeMemory
new_knowledge_memory = record { entries = []; index = [] }

abbrev pub entry_key : KnowledgeType → Bytes → Bytes
entry_key type key = type_name type ++ (b':' ∷ to_lower key)

-- neither a lower letter nor a digit
abbrev pub is_cut : ℕ → Bool
is_cut c = (ltb c b'a' || ltb b'z' c) && (ltb c b'0' || ltb b'9' c)

abbrev pub is_member : Bytes → List Bytes → Bool
is_member s [] = false
is_member s (t ∷ ts) = bytes_eq t s || is_member s ts

-- the loop of `tokenizeKey`
abbrev pub distinct_words : List Bytes → List Bytes → List Bytes
distinct_words seen [] = []
distinct_words seen (w ∷ ws) =
    let taken = w ∷ distinct_words (w ∷ seen) ws in
    let skipped = distinct_words seen ws in
    if leb 2 (length w) && not (is_member w seen) then taken else skipped

unfoldable pub tokenize_key : Bytes → List Bytes
tokenize_key key = distinct_words [] (fields_func is_cut (to_lower key))

-- `km.index[k] = append(km.index[k], ek)`
abbrev add_index : Bytes → Bytes → List (Bytes × List Bytes) → List (Bytes × List Bytes)
add_index k ek index =
    insert bytes_discrete k
      ((elim (lookup bytes_discrete k index) [ none ↦ [] | some eks ↦ eks ]) ++ ek ∷ []) index

abbrev add_tokens : List Bytes → Bytes → List (Bytes × List Bytes) → List (Bytes × List Bytes)
add_tokens [] ek index = index
add_tokens (t ∷ ts) ek index = add_tokens ts ek (add_index t ek index)

unfoldable pub index_entry : Bytes → Bytes → List (Bytes × List Bytes) → List (Bytes × List Bytes)
unfolding tokenize_key
index_entry key ek index = add_tokens (tokenize_key key) ek (add_index (to_lower key) ek index)

abbrev pub stored : KnowledgeType → Bytes → KnowledgeEntry → ℕ → KnowledgeEntry
stored type key entry now = record entry {
  key = key;
  type = type;
  created_at = now;
  last_used_at = now;
  hit_count = 1;
}

-- `Store`
unfoldable pub store :
    KnowledgeType → Bytes → KnowledgeEntry → ℕ → KnowledgeMemory → KnowledgeMemory
unfolding index_entry
store type key entry now km =
    let ek = entry_key type key in
    record {
      entries = insert bytes_discrete ek (stored type key entry now) km.entries;
      index = index_entry key ek km.index;
    }

abbrev pub used : ℕ → KnowledgeEntry → KnowledgeEntry
used now e = record e { last_used_at = now; hit_count = suc e.hit_count }

-- `Lookup`
unfoldable pub find :
    KnowledgeType → Bytes → ℕ → KnowledgeMemory → KnowledgeMemory × Option KnowledgeEntry
find type key now km =
    let ek = entry_key type key in
    elim (lookup bytes_discrete ek km.entries) [
      | none ↦ (km, none)
      | some e ↦ (
        record km { entries = insert bytes_discrete ek (used now e) km.entries },
        some (used now e),
      )
    ]

-- `matchScore`
unfoldable pub match_score : KnowledgeEntry → List Bytes → ℕ
match_score e [] = 0
match_score e (t ∷ ts) =
    (if contains (to_lower e.key) t
      then 2
      else if contains (to_lower e.value) t || contains (to_lower e.file) t
      then 1
      else 0)
    + match_score e ts

-- the test of the sort: a higher score first, and then the later use
unfoldable pub ranks_before : List Bytes → KnowledgeEntry → KnowledgeEntry → Bool
unfolding match_score
ranks_before terms e f =
    if match_score e terms == match_score f terms
    then ltb f.last_used_at e.last_used_at
    else ltb (match_score f terms) (match_score e terms)

abbrev pub all_entries : KnowledgeMemory → List KnowledgeEntry
all_entries km = map (λ (r : Bytes × KnowledgeEntry). r.1) km.entries

-- `rankByOverlap`
unfoldable pub rank_by_overlap :
    List KnowledgeEntry → List Bytes → (KnowledgeEntry → Bool) → List KnowledgeEntry
unfolding ranks_before match_score
rank_by_overlap entries terms keep =
    sort_by (ranks_before terms) (keep_if (λ e. keep e && ltb 0 (match_score e terms)) entries)

abbrev pub is_type : KnowledgeType → KnowledgeEntry → Bool
is_type type e = elim (KnowledgeType-discrete e.type type) [ yes _ ↦ true | no _ ↦ false ]

-- `Search`
unfoldable pub search_type : KnowledgeType → Bytes → KnowledgeMemory → List KnowledgeEntry
unfolding tokenize_key rank_by_overlap
search_type type query km = elim (tokenize_key query) [
  | [] ↦ []
  | t ∷ ts ↦ rank_by_overlap (all_entries km) (t ∷ ts) (is_type type)
]

-- `SearchAll`
unfoldable pub search_all : Bytes → KnowledgeMemory → List KnowledgeEntry
unfolding tokenize_key rank_by_overlap
search_all query km = elim (tokenize_key query) [
  | [] ↦ []
  | t ∷ ts ↦ rank_by_overlap (all_entries km) (t ∷ ts) (λ _. true)
]

-- `Stats`: the number of entries for each name of a type
abbrev count_types : List KnowledgeEntry → List (Bytes × ℕ) → List (Bytes × ℕ)
count_types [] stats = stats
count_types (e ∷ es) stats = count_types es (
    insert bytes_discrete (type_name e.type)
      (suc (elim (lookup bytes_discrete (type_name e.type) stats) [ none ↦ 0 | some n ↦ n ])) stats)

unfoldable pub stats : KnowledgeMemory → List (Bytes × ℕ)
stats km = count_types (all_entries km) []

-- what `os.ReadFile` finds
pub data DiskFile : Type 0 where
  missing unreadable : DiskFile
  content : Bytes → DiskFile

pub data LoadError : Type 0 where
  read_file unmarshal null_entry : LoadError

pub data SaveError : Type 0 where
  make_dir marshal write_file : SaveError

-- the loop of `LoadFromFile`, which panics at a null entry
abbrev load_entries :
    List (Option KnowledgeEntry) → KnowledgeMemory → KnowledgeMemory × Option LoadError
load_entries [] km = (km, none)
load_entries (none ∷ es) km = (km, some null_entry)
load_entries (some e ∷ es) km =
    let ek = entry_key e.type e.key in
    load_entries es (record {
      entries = insert bytes_discrete ek (record e { hit_count = 1 }) km.entries;
      index = index_entry e.key ek km.index;
    })

-- the outcomes of the file system for one file; a failed write leaves the file as it was, or with so
-- many bytes of the new text
pub record FileSystem : Type 0 where
  pub dir_ok : Bool
  pub write_ok : Bool
  pub torn : Option ℕ

-- the file behind a failed `os.WriteFile`
abbrev pub failed_save : Option ℕ → Bytes → DiskFile → DiskFile
failed_save none text before = before
failed_save (some n) text before = content (take n text)

module _ (to_json : ℕ → List KnowledgeEntry → Option Bytes)
    (of_json : Bytes → Option (List (Option KnowledgeEntry))) where
  -- `SaveToFile`: the file behind it
  unfoldable pub save_to_file :
      FileSystem → ℕ → KnowledgeMemory → DiskFile → DiskFile × Option SaveError
  save_to_file fs now km before =
      if fs.dir_ok
      then elim (to_json now (all_entries km)) [
        | none ↦ (before, some marshal)
        | some text ↦
            if fs.write_ok
            then (content text, none)
            else (failed_save fs.torn text before, some write_file)
      ]
      else (before, some make_dir)

  -- `LoadFromFile`
  unfoldable pub load_from_file : DiskFile → KnowledgeMemory → KnowledgeMemory × Option LoadError
  unfolding index_entry
  load_from_file missing km = (km, none)
  load_from_file unreadable km = (km, some read_file)
  load_from_file (content text) km = elim (of_json text) [
    | none ↦ (km, some unmarshal)
    | some es ↦ load_entries es km
  ]

-- the constructors of entries
abbrev blank : KnowledgeType → Bytes → Bytes → ℕ → KnowledgeEntry
blank type key value confidence = record {
  type = type;
  key = key;
  value = value;
  metadata = [];
  file = [];
  line = 0;
  confidence = confidence;
  created_at = 0;
  last_used_at = 0;
  hit_count = 0;
}

abbrev pub new_symbol_entry : Bytes → Bytes → Bytes → KnowledgeEntry
new_symbol_entry name file definition = record (blank symbol_knowledge name definition 100) {
  file = file;
}

abbrev pub new_reference_entry : Bytes → List Bytes → KnowledgeEntry
new_reference_entry symbol files =
    record (blank reference_knowledge symbol (join files (codes ", ")) 80) { metadata = files }

abbrev pub new_caller_entry : Bytes → List Bytes → KnowledgeEntry
new_caller_entry symbol callers =
    record (blank caller_knowledge symbol (join callers (codes ", ")) 85) { metadata = callers }

abbrev pub new_user_note : Bytes → Bytes → KnowledgeEntry
new_user_note key fact = blank user_note key fact 100
