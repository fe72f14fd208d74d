-- ===== src/Tests/StashSamples.antt =====
-- internal/stash/stash.go at concrete inputs.
use mathlib.Core.Logic.{ite}
use costwise_mcp.Prelude.{
  ℕ, ◌+◌, ◌≡◌, ◌≢◌, refl, Bool, true, false, List, [], ◌∷◌, Option, none, some, Bytes, codes,
  bytes_discrete, arith, length, lookup, All, pos, or_default, keep_if, split, IsTop, bytes_eq, not,
}
use Prim.Native.Nat.{min}
use costwise_mcp.Stash.{
  list, entries, Entry, Disk, Store, content, blob_name, normalize_handle, handle_of, store, get,
  prune_locked, query_lines, max_entries,
}
use costwise_mcp.Stash.Storing.{store-get, get-plain}
use costwise_mcp.Stash.Pruning.{prune_locked-length}
use costwise_mcp.Stash.Newest.{newer, list-prune_locked-IsTop}
use costwise_mcp.Stash.Reading.{IsQueried, is_match, query_lines-IsQueried}

-- a digest of six bytes
abbrev digest : Bytes → Bytes
digest s = 1 ∷ 2 ∷ 3 ∷ 4 ∷ 5 ∷ 6 ∷ []

abbrev to_json : List Entry → Option Bytes
to_json es = some (codes "[]")

abbrev of_json : Bytes → Option (List Entry)
of_json s = none

-- every file can be written, and the blob `ab` cannot be removed
abbrev disk : Disk
disk = record {
  writable = λ name. true;
  torn = λ name. none;
  removable = λ name. not (bytes_eq name (codes "ab.txt"));
}

abbrev no_name : Bytes → Bool
no_name name = false

abbrev entry : Bytes → ℕ → Entry
entry handle created_at = record {
  handle = handle;
  label = [];
  tokens = 0;
  bytes = 2;
  created_at = created_at;
}

abbrev two_blobs : Store
two_blobs = record {
  files = (codes "ab.txt", codes "hi") ∷ (codes "cd.txt", codes "ho") ∷ [];
  idx = (codes "ab", entry (codes "ab") 4) ∷ (codes "cd", entry (codes "cd") 7) ∷ [];
}

store-get_example :
    get digest to_json of_json disk no_name
      (codes " stash://010203040506")
      (store digest to_json of_json disk no_name 9 (codes "text") (codes "label") two_blobs).0
    ≡ ite
        (bytes_discrete
          (normalize_handle (codes " stash://010203040506"))
          (handle_of digest to_json of_json disk no_name (codes "text")))
        (content (codes "text"))
        (get digest to_json of_json disk no_name (codes " stash://010203040506") two_blobs)
store-get_example =
    store-get digest to_json of_json disk no_name 9 (codes "text") (codes "label")
      (codes " stash://010203040506") two_blobs
      (omega arith, (omega arith, (omega arith, (omega arith, (omega arith, (omega arith, tt))))))
      (omega arith) refl refl (omega arith)

get-plain_example :
    All (λ (c : ℕ). (c ≢ b'/') × (c ≢ b'.')) (normalize_handle (codes "AB"))
    × (lookup bytes_discrete (blob_name (normalize_handle (codes "AB"))) two_blobs.files
        ≡ some (codes "hi"))
unfolding get normalize_handle bytes_discrete
get-plain_example =
    get-plain digest to_json of_json disk no_name (codes "AB") (codes "hi") two_blobs refl

cd_free : lookup bytes_discrete (codes "ab") ((codes "cd", entry (codes "cd") 7) ∷ []) ≡ none
unfolding bytes_discrete
cd_free = refl

prune_locked-length_example :
    let (t, removed) = prune_locked disk (pos 1) two_blobs in
    (length t.idx ≡ min (or_default max_entries (pos 1)) (length two_blobs.idx))
    × (removed + length t.idx ≡ length two_blobs.idx)
prune_locked-length_example =
    prune_locked-length disk (pos 1) two_blobs ((cd_free, (refl, tt)), (refl, (refl, tt)))

list-prune_locked-IsTop_example :
    IsTop newer
      (λ _. true)
      (or_default max_entries (pos 1))
      (entries two_blobs.idx)
      (list (prune_locked disk (pos 1) two_blobs).0)
list-prune_locked-IsTop_example =
    list-prune_locked-IsTop disk (pos 1) two_blobs ((cd_free, (refl, tt)), (refl, (refl, tt)))

query_lines-IsQueried_example :
    IsQueried 8
      (keep_if (is_match (codes "a")) (split (codes "ab cd\n  aB\nx") b'\n'))
      ([], 0, 0)
      (query_lines (codes "a") 8 (split (codes "ab cd\n  aB\nx") b'\n') ([], 0, 0))
query_lines-IsQueried_example =
    query_lines-IsQueried (codes "a") 8 (split (codes "ab cd\n  aB\nx") b'\n') ([], 0, 0)
