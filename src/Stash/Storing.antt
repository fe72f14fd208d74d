-- ===== src/Stash/Storing.antt =====
-- internal/stash/stash.go: what `Get` finds behind `Store`.
use mathlib.Core.Logic.{ite, if_pos, if_neg}
use costwise_mcp.Prelude.{
  ℕ, suc, ◌<◌, ◌≡◌, ◌≢◌, ◌⊎◌, refl, ap, sym, ◌∙◌, inl, inr, Bool, true, false, List, [], ◌∷◌,
  Option, none, some, Bytes, bytes_discrete, leb, if◌then◌else◌, lookup, insert, delete, All,
  All-take, hex, take, length, arith, Bool-cases, Option-cases, lookup-delete_ne, length-delete-le,
}
use costwise_mcp.Stash.{
  failed_write, Entry, Store, Disk, Found, content, unknown, failed, max_entries, blob_name,
  manifest_name, normalize_handle, is_hex_handle, all_hex, handle_of, entry_of, entries,
  prune_locked, persist, store, get,
}
use costwise_mcp.Stash.Handles.{
  hex-all_hex, normalize_handle_hex, blob_name-injective, blob_name-manifest, all_hex-plain,
}

lookup-insert :
    (k q v : Bytes) (m : List (Bytes × Bytes))
    → lookup bytes_discrete q (insert bytes_discrete k v m)
      ≡ ite (bytes_discrete q k) (some v) (lookup bytes_discrete q m)
lookup-insert k q v m = elim (bytes_discrete q k) [
  | yes e ↦ if_pos (bytes_discrete k q) (sym e) _ _ ∙ sym (if_pos (bytes_discrete q k) e _ _)
  | no ne ↦
      if_neg (bytes_discrete k q) (λ e. ne (sym e)) _ _
      ∙ (lookup-delete_ne bytes_discrete k q m ne ∙ sym (if_neg (bytes_discrete q k) ne _ _))
]

-- what `Get` makes of the outcome of the read
read-content :
    (b : Bool) (o : Option Bytes) (text : Bytes)
    → (if b then failed else elim o [ none ↦ unknown | some t ↦ content t ]) ≡ content text
    → o ≡ some text
read-content true o text e = absurd (cc e)
read-content false none text e = absurd (cc e)
read-content false (some t) text e = cc e

is_hex_handle-plain :
    (h : Bytes) → is_hex_handle h ≡ true → All (λ (c : ℕ). (c ≢ b'/') × (c ≢ b'.')) h
is_hex_handle-plain [] e = tt
is_hex_handle-plain (c ∷ h) e = all_hex-plain (c ∷ h) e

is_hex_handle_long :
    (s : Bytes) → All (λ (b : ℕ). b < 256) s → 0 < length s → is_hex_handle (hex (take 6 s)) ≡ true
is_hex_handle_long [] small long = absurd (omega arith)
is_hex_handle_long (b ∷ s) small long =
    hex-all_hex (take 6 (b ∷ s)) (All-take (λ (b : ℕ). b < 256) 6 (b ∷ s) small)

module _ (sha256 : Bytes → Bytes) (to_json : List Entry → Option Bytes)
    (of_json : Bytes → Option (List Entry)) (disk : Disk) (broken : Bytes → Bool) where
  persist-cases :
      (s : Store)
      → (persist sha256 to_json of_json disk broken s ≡ s)
        ⊎ ((text : Bytes) × (persist sha256 to_json of_json disk broken s
              ≡ record s { files = insert bytes_discrete manifest_name text s.files }))
  unfolding persist
  persist-cases s = elim (Option-cases (to_json (entries s.idx))) [
    | inl bad ↦ inl (rw (bad, persist) refl)
    | inr (text, good) ↦ elim (Bool-cases (disk.writable manifest_name)) [
      | inr off ↦ elim (Option-cases (disk.torn manifest_name)) [
        | inl untouched ↦ inl (rw (good, off, untouched, persist, failed_write) refl)
        | inr (n, left) ↦ inr (take n text, rw (good, off, left, persist, failed_write) refl)
      ]
      | inl on ↦ inr (text, rw (good, on, persist) refl)
    ]
  ]

  -- The manifest is no blob.
  lookup-persist :
      (s : Store) (h : Bytes)
      → is_hex_handle h ≡ true
      → lookup bytes_discrete (blob_name h) (persist sha256 to_json of_json disk broken s).files
        ≡ lookup bytes_discrete (blob_name h) s.files
  lookup-persist s h e = elim (persist-cases s) [
    | inl same ↦ ap (λ (t : Store). lookup bytes_discrete (blob_name h) t.files) same
    | inr (text, written) ↦
        ap (λ (t : Store). lookup bytes_discrete (blob_name h) t.files) written
        ∙ (lookup-insert manifest_name (blob_name h) text s.files
            ∙ if_neg (bytes_discrete (blob_name h) manifest_name) (blob_name-manifest h e) _ _)
  ]

  -- a name that `Get` reads is hexadecimal
  get_hex :
      (handle : Bytes) (s : Store)
      → is_hex_handle (normalize_handle handle) ≡ true
      → get sha256 to_json of_json disk broken handle s ≡ (
          if broken (blob_name (normalize_handle handle))
          then failed
          else elim (lookup bytes_discrete (blob_name (normalize_handle handle)) s.files) [
            | none ↦ unknown
            | some text ↦ content text
          ])
  unfolding get
  get_hex handle s e = rw e refl

  get_unknown :
      (handle : Bytes) (s : Store)
      → is_hex_handle (normalize_handle handle) ≡ false
      → get sha256 to_json of_json disk broken handle s ≡ unknown
  unfolding get
  get_unknown handle s e = rw e refl

  -- What `Get` finds is the content of a file in the directory whose name has neither a slash nor
  -- a dot before its ending.
  pub get-plain :
      (handle text : Bytes) (s : Store)
      → get sha256 to_json of_json disk broken handle s ≡ content text
      → All (λ (c : ℕ). (c ≢ b'/') × (c ≢ b'.')) (normalize_handle handle)
        × (lookup bytes_discrete (blob_name (normalize_handle handle)) s.files ≡ some text)
  get-plain handle text s found = elim (Bool-cases (is_hex_handle (normalize_handle handle))) [
    | inr other ↦ absurd (cc (found, get_unknown handle s other))
    | inl hex_name ↦
        let read = sym (get_hex handle s hex_name) ∙ found in
        (
          is_hex_handle-plain (normalize_handle handle) hex_name,
          read-content (broken (blob_name (normalize_handle handle))) _ text read,
        )
  ]

  handle_of-all_hex :
      (text : Bytes)
      → All (λ (b : ℕ). b < 256) (sha256 text)
      → all_hex (handle_of sha256 to_json of_json disk broken text) ≡ true
  unfolding handle_of
  handle_of-all_hex text small =
      hex-all_hex (take 6 (sha256 text)) (All-take (λ (b : ℕ). b < 256) 6 (sha256 text) small)

  handle_of-is_hex_handle :
      (text : Bytes)
      → All (λ (b : ℕ). b < 256) (sha256 text)
      → 0 < length (sha256 text)
      → is_hex_handle (handle_of sha256 to_json of_json disk broken text) ≡ true
  unfolding handle_of
  handle_of-is_hex_handle text small long = is_hex_handle_long (sha256 text) small long

  -- the store before the manifest is written
  abbrev written : ℕ → Bytes → Bytes → Store → Store
  written now text label s =
      let handle = handle_of sha256 to_json of_json disk broken text in
      record {
        files = insert bytes_discrete (blob_name handle) text s.files;
        idx =
            insert bytes_discrete handle
              (entry_of sha256 to_json of_json disk broken now text label
                (lookup bytes_discrete handle s.idx))
              s.idx;
      }

  store_room :
      (now : ℕ) (text label : Bytes) (s : Store)
      → disk.writable (blob_name (handle_of sha256 to_json of_json disk broken text)) ≡ true
      → length s.idx < max_entries
      → store sha256 to_json of_json disk broken now text label s ≡ (
        persist sha256 to_json of_json disk broken (written now text label s),
        some (
            entry_of sha256 to_json of_json disk broken now text label
              (lookup bytes_discrete (handle_of sha256 to_json of_json disk broken text) s.idx)),
      )
  unfolding store costwise_mcp.Stash.prune_locked
  store_room now text label s writes room =
      let handle = handle_of sha256 to_json of_json disk broken text in
      let less = length-delete-le bytes_discrete handle s.idx in
      let fits : leb (suc (length (delete bytes_discrete handle s.idx))) 256 ≡ true =
        ground arith in
      rw (writes, store) (rw (fits, prune_locked) refl)

  get-lookup :
      (handle : Bytes) (s t : Store)
      → (is_hex_handle (normalize_handle handle) ≡ true
          → lookup bytes_discrete (blob_name (normalize_handle handle)) t.files
            ≡ lookup bytes_discrete (blob_name (normalize_handle handle)) s.files)
      → get sha256 to_json of_json disk broken handle t
        ≡ get sha256 to_json of_json disk broken handle s
  get-lookup handle s t same = elim (Bool-cases (is_hex_handle (normalize_handle handle))) [
    | inr other ↦ get_unknown handle t other ∙ sym (get_unknown handle s other)
    | inl hex_name ↦
        get_hex handle t hex_name
        ∙ (ap
              (λ (o : Option Bytes).
                if broken (blob_name (normalize_handle handle))
                then failed
                else elim o [ none ↦ unknown | some text ↦ content text ])
              (same hex_name)
            ∙ sym (get_hex handle s hex_name))
  ]

  -- `Store` on an index with room for an entry, of a text whose digest has bytes and whose file
  -- can be written and read, lets `Get` find the text under every spelling of its handle, and
  -- changes what `Get` finds under no other handle.
  pub store-get :
      (now : ℕ) (text label handle : Bytes) (s : Store)
      → All (λ (b : ℕ). b < 256) (sha256 text)
      → 0 < length (sha256 text)
      → disk.writable (blob_name (handle_of sha256 to_json of_json disk broken text)) ≡ true
      → broken (blob_name (handle_of sha256 to_json of_json disk broken text)) ≡ false
      → length s.idx < max_entries
      → get sha256 to_json of_json disk broken handle
          (store sha256 to_json of_json disk broken now text label s).0
        ≡ ite
            (bytes_discrete
              (normalize_handle handle)
              (handle_of sha256 to_json of_json disk broken text))
            (content text)
            (get sha256 to_json of_json disk broken handle s)
  store-get now text label handle s small long writes reads room =
      let k = handle_of sha256 to_json of_json disk broken text in
      let h = normalize_handle handle in
      let k_hex : is_hex_handle k ≡ true = handle_of-is_hex_handle text small long in
      let t = written now text label s in
      ap (λ (r : Store × Option Entry). get sha256 to_json of_json disk broken handle r.0)
        (store_room now text label s writes room)
      ∙ (get-lookup handle t (persist sha256 to_json of_json disk broken t) (lookup-persist t h)
          ∙ elim (bytes_discrete h k) [
            | yes e ↦
                get_hex handle t (ap is_hex_handle e ∙ k_hex)
                ∙ (ap
                      (λ (n : Bytes).
                        if broken (blob_name n)
                        then failed
                        else elim (lookup bytes_discrete (blob_name n) t.files) [
                          | none ↦ unknown
                          | some x ↦ content x
                        ])
                      e
                    ∙ (rw
                          (
                            reads,
                            if_pos (bytes_discrete (blob_name k) (blob_name k)) refl (some text) (
                                lookup bytes_discrete (blob_name k)
                                  (delete bytes_discrete (blob_name k) s.files)),
                          )
                          refl
                        ∙ sym (if_pos (bytes_discrete h k) e _ _)))
            | no ne ↦
                get-lookup handle s t (λ _.
                  lookup-insert (blob_name k) (blob_name h) text s.files
                  ∙ if_neg (bytes_discrete (blob_name h) (blob_name k))
                      (λ e. ne (blob_name-injective h k e)) _ _)
                ∙ sym (if_neg (bytes_discrete h k) ne _ _)
          ])

  -- the handle that `Store` returns is its own normal form
  pub store-get_own :
      (now : ℕ) (text label : Bytes) (s : Store)
      → All (λ (b : ℕ). b < 256) (sha256 text)
      → 0 < length (sha256 text)
      → disk.writable (blob_name (handle_of sha256 to_json of_json disk broken text)) ≡ true
      → broken (blob_name (handle_of sha256 to_json of_json disk broken text)) ≡ false
      → length s.idx < max_entries
      → get sha256 to_json of_json disk broken
          (handle_of sha256 to_json of_json disk broken text)
          (store sha256 to_json of_json disk broken now text label s).0
        ≡ content text
  store-get_own now text label s small long writes reads room =
      let k = handle_of sha256 to_json of_json disk broken text in
      store-get now text label k s small long writes reads room
      ∙ if_pos (bytes_discrete (normalize_handle k) k)
          (normalize_handle_hex k (handle_of-all_hex text small)) _ _
