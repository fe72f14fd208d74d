-- ===== src/Stash.antt =====
-- internal/stash/stash.go: large texts kept out of the context, under a handle of their content.
-- The directory is a map from file names to contents; JSON, SHA-256 and the errors of the file
-- system are parameters. Entries with equal times are sorted in one of the orders that the source
-- may give them, since it lists a Go map and `sort.Slice` is not stable.
pub mod Handles
pub mod Reading
pub mod Pruning
pub mod Kept
pub mod Newest
pub mod Storing
use costwise_mcp.Prelude.{
  ℕ, zero, suc, ◌+◌, ◌*◌, ◌-◌, ◌/◌, Bool, true, false, not, ◌&&◌, ◌||◌, List, [], ◌∷◌, ◌++◌, map,
  Option, none, some, Bytes, codes, hex, bytes_eq, bytes_discrete, ◌==◌, ltb, leb, if◌then◌else◌,
  lookup, insert, delete, length, take, drop, split, to_lower, trim_space, contains, decimal,
  has_prefix, ℤ, or_default,
}

pub record Entry : Type 0 where
  pub handle : Bytes
  pub label : Bytes
  pub tokens : ℕ
  pub bytes : ℕ
  pub created_at : ℕ

-- the directory, and the index in memory
pub record Store : Type 0 where
  pub files : List (Bytes × Bytes)
  pub idx : List (Bytes × Entry)

abbrev pub max_entries : ℕ
max_entries = 256

abbrev pub blob_name : Bytes → Bytes
blob_name h = h ++ codes ".txt"

abbrev pub manifest_name : Bytes
manifest_name = codes "manifest.json"

-- `strings.TrimPrefix`
abbrev trim_prefix : Bytes → Bytes → Bytes
trim_prefix s p = if has_prefix s p then drop (length p) s else s

unfoldable pub normalize_handle : Bytes → Bytes
normalize_handle h =
    let t = trim_prefix (trim_prefix (trim_space h) (codes "stash://")) (codes "stash:") in
    to_lower (trim_space t)

abbrev pub is_hex_digit : ℕ → Bool
is_hex_digit c = not ((ltb c b'0' || ltb b'9' c) && (ltb c b'a' || ltb b'f' c))

abbrev pub all_hex : Bytes → Bool
all_hex [] = true
all_hex (c ∷ h) = is_hex_digit c && all_hex h

abbrev pub is_hex_handle : Bytes → Bool
is_hex_handle [] = false
is_hex_handle (c ∷ h) = all_hex (c ∷ h)

-- what `Get` returns: the content, nothing, or an error
pub data Found : Type 0 where
  content : Bytes → Found
  unknown : Found
  failed : Found

-- `sort.Slice` by `CreatedAt`, newest first
unfoldable insert_by_created : Entry → List Entry → List Entry
insert_by_created e [] = e ∷ []
insert_by_created e (f ∷ fs) =
    let rest = insert_by_created e fs in
    if ltb e.created_at f.created_at then f ∷ rest else e ∷ f ∷ fs

unfoldable pub by_created : List Entry → List Entry
unfolding insert_by_created
by_created [] = []
by_created (e ∷ es) = insert_by_created e (by_created es)

abbrev pub entries : List (Bytes × Entry) → List Entry
entries idx = map (λ (r : Bytes × Entry). r.1) idx

-- `List`
unfoldable pub list : Store → List Entry
unfolding by_created
list s = by_created (entries s.idx)

-- what the file system answers: which files can be written and removed, and how many bytes of the
-- new text a failed write leaves in a file, or that it leaves the file as it was
pub record Disk : Type 0 where
  pub writable : Bytes → Bool
  pub torn : Bytes → Option ℕ
  pub removable : Bytes → Bool

-- the files behind a failed `os.WriteFile`
abbrev pub failed_write : Disk → Bytes → Bytes → List (Bytes × Bytes) → List (Bytes × Bytes)
failed_write disk name text files = elim (disk.torn name) [
  | none ↦ files
  | some n ↦ insert bytes_discrete name (take n text) files
]

-- the loop that removes entries and, where `os.Remove` can, their blobs
abbrev pub remove_entries : Disk → List Entry → Store → Store
remove_entries disk [] s = s
remove_entries disk (e ∷ es) s = remove_entries disk es (record {
  files =
      if disk.removable (blob_name e.handle)
      then delete bytes_discrete (blob_name e.handle) s.files
      else s.files;
  idx = delete bytes_discrete e.handle s.idx;
})

-- `pruneLocked`: the store and the number of removed entries
unfoldable pub prune_locked : Disk → ℤ → Store → Store × ℕ
unfolding by_created
prune_locked disk max s =
    let cap = or_default max_entries max in
    if leb (length s.idx) cap
    then (s, 0)
    else let old = drop cap (by_created (entries s.idx)) in (remove_entries disk old s, length old)

-- `sha256` digests a text; `to_json` and `of_json` are the JSON of the manifest; `broken` tells
-- which files cannot be read although they exist.
module _ (sha256 : Bytes → Bytes) (to_json : List Entry → Option Bytes)
    (of_json : Bytes → Option (List Entry)) (disk : Disk) (broken : Bytes → Bool) where
  -- `persist`, which drops every error
  unfoldable pub persist : Store → Store
  persist s = elim (to_json (entries s.idx)) [
    | none ↦ s
    | some data_bytes ↦
        if disk.writable manifest_name
        then record s { files = insert bytes_discrete manifest_name data_bytes s.files }
        else record s { files = failed_write disk manifest_name data_bytes s.files }
  ]

  abbrev index_entries : List Entry → List (Bytes × Entry) → List (Bytes × Entry)
  index_entries [] idx = idx
  index_entries (e ∷ es) idx = index_entries es (insert bytes_discrete e.handle e idx)

  -- `load`, on a new store
  unfoldable pub load : Store → Store
  load s = if broken manifest_name then s else elim (lookup bytes_discrete manifest_name s.files) [
    | none ↦ s
    | some data_bytes ↦ elim (of_json data_bytes) [
      | none ↦ s
      | some es ↦ record s { idx = index_entries es s.idx }
    ]
  ]

  -- `New` over a directory that `os.MkdirAll` made or found
  unfoldable pub new : List (Bytes × Bytes) → Store
  unfolding load
  new files = load (record { files = files; idx = [] })

  unfoldable pub handle_of : Bytes → Bytes
  handle_of text = hex (take 6 (sha256 text))

  -- the entry that `Store` makes, over the one that stands under its handle
  unfoldable pub entry_of : ℕ → Bytes → Bytes → Option Entry → Entry
  unfolding handle_of
  entry_of now text label existing =
      let e : Entry = record {
        handle = handle_of text;
        label = trim_space label;
        tokens = length text / 4;
        bytes = length text;
        created_at = now;
      } in
      elim existing [
        | none ↦ e
        | some old ↦
            let dated = record e { created_at = old.created_at } in
            if bytes_eq e.label [] then record dated { label = old.label } else dated
      ]

  -- `Store`; `none` is an error
  unfoldable pub store : ℕ → Bytes → Bytes → Store → Store × Option Entry
  unfolding handle_of entry_of prune_locked persist
  store now text label s =
      let handle = handle_of text in
      let e = entry_of now text label (lookup bytes_discrete handle s.idx) in
      let written : Store = record {
        files = insert bytes_discrete (blob_name handle) text s.files;
        idx = insert bytes_discrete handle e s.idx;
      } in
      if disk.writable (blob_name handle)
      then (persist (prune_locked disk (ℤ.pos max_entries) written).0, some e)
      else (record s { files = failed_write disk (blob_name handle) text s.files }, none)

  -- `Prune`
  unfoldable pub prune : ℤ → Store → Store × ℕ
  unfolding prune_locked persist
  prune max s = let (t, n) = prune_locked disk max s in if ltb 0 n then (persist t, n) else (t, n)

  -- `Get`
  unfoldable pub get : Bytes → Store → Found
  unfolding normalize_handle
  get handle s =
      let h = normalize_handle handle in
      if is_hex_handle h
      then if broken (blob_name h)
        then failed
        else elim (lookup bytes_discrete (blob_name h) s.files) [
          | none ↦ unknown
          | some text ↦ content text
        ]
      else unknown

-- the lines of the loop in `Query`: the text so far, and how many lines were added and matched
unfoldable pub query_lines : Bytes → ℕ → List Bytes → Bytes × ℕ × ℕ → Bytes × ℕ × ℕ
query_lines q max_chars [] state = state
query_lines q max_chars (line ∷ lines) (b, added, matched) =
    let rest = query_lines q max_chars lines in
    if not (bytes_eq q []) && not (contains (to_lower line) q)
    then rest (b, added, matched)
    else if ltb max_chars (length b + length line + 1)
    then rest (b, added, suc matched)
    else rest (b ++ (line ++ b'\n' ∷ []), suc added, suc matched)

-- `Query`; `quote` is the verb %q
module _ (quote : Bytes → Bytes) (sha256 : Bytes → Bytes) (to_json : List Entry → Option Bytes)
    (of_json : Bytes → Option (List Entry)) (disk : Disk) (broken : Bytes → Bool) where
  unfoldable pub query : Bytes → Bytes → ℤ → Store → Found
  unfolding get normalize_handle query_lines
  query handle words budget s = elim (get sha256 to_json of_json disk broken handle s) [
    | failed ↦ failed
    | unknown ↦ unknown
    | content text ↦
        let max_chars = or_default 500 budget * 4 in
        let q = to_lower (trim_space words) in
        let (b, added, matched) = query_lines q max_chars (split text b'\n') ([], 0, 0) in
        if matched == 0
        then content (
            codes "No lines in stash "
            ++ (normalize_handle handle ++ (codes " match " ++ (quote words ++ codes "."))))
        else if ltb added matched
        then content (
            b
            ++ (codes "... +"
                ++ (decimal (matched - added)
                    ++ (codes " more matching lines (narrow the query or raise budget)"
                        ++ b'\n' ∷ []))))
        else content b
  ]
