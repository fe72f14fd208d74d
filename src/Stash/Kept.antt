-- ===== src/Stash/Kept.antt =====
-- internal/stash/stash.go: the part of the sorted index that `pruneLocked` leaves.
use mathlib.Core.Logic.{ite, if_pos, if_neg}
use costwise_mcp.Prelude.{
  ℕ, zero, suc, ◌≤◌, ◌≡◌, ◌≢◌, refl, ap, sym, ◌∙◌, inl, inr, true, false, List, [], ◌∷◌, Bytes,
  bytes_discrete, ltb, leb, leb→le, delete, All, length, length-map, take, drop, take_of_length-le,
  arith, Bool-cases, ℤ, or_default, if◌then◌else◌,
}
use costwise_mcp.Stash.{
  Entry, Store, Disk, max_entries, blob_name, entries, insert_by_created, by_created, list,
  remove_entries, prune_locked,
}
use costwise_mcp.Stash.Pruning.{
  IsKeyed, AreDifferent, insert_by_created-All, drop-All, by_created-AreDifferent,
  entries-AreListed, by_created-length,
}

-- the entries with other handles
abbrev without : Bytes → List Entry → List Entry
without k [] = []
without k (e ∷ es) = let rest = without k es in ite (bytes_discrete e.handle k) rest (e ∷ rest)

abbrev without_all : List Entry → List Entry → List Entry
without_all [] es = es
without_all (d ∷ ds) es = without_all ds (without d.handle es)

abbrev AreKeyed : List (Bytes × Entry) → Type 0
AreKeyed idx = All (λ (r : Bytes × Entry). r.1.handle ≡ r.0) idx

-- newest first
abbrev IsSorted : List Entry → Type 0
IsSorted [] = Unit
IsSorted (e ∷ es) = All (λ (f : Entry). f.created_at ≤ e.created_at) es × IsSorted es

entries-delete :
    (k : Bytes) (idx : List (Bytes × Entry))
    → AreKeyed idx
    → (entries (delete bytes_discrete k idx) ≡ without k (entries idx))
      × AreKeyed (delete bytes_discrete k idx)
entries-delete k [] keyed = (refl, tt)
entries-delete k ((j, e) ∷ idx) (key, keyed) =
    let (rest, kept) = entries-delete k idx keyed in
    elim (bytes_discrete j k) [
      | yes p ↦
          rw (if_pos (bytes_discrete j k) p, if_pos (bytes_discrete e.handle k) (key ∙ p))
            (rest, kept)
      | no p ↦
          rw
            (
              if_neg (bytes_discrete j k) p,
              if_neg (bytes_discrete e.handle k) (λ x. p (sym key ∙ x)),
            )
            (ap (◌∷◌ e) rest, (key, kept))
    ]

entries-remove_entries :
    (disk : Disk) (ds : List Entry) (s : Store)
    → AreKeyed s.idx
    → entries (remove_entries disk ds s).idx ≡ without_all ds (entries s.idx)
entries-remove_entries disk [] s keyed = refl
entries-remove_entries disk (d ∷ ds) s keyed =
    let (same, kept) = entries-delete d.handle s.idx keyed in
    entries-remove_entries disk ds
      (record {
        files =
            if disk.removable (blob_name d.handle)
            then delete bytes_discrete (blob_name d.handle) s.files
            else s.files;
        idx = delete bytes_discrete d.handle s.idx;
      })
      kept
    ∙ ap (without_all ds) same

All-trans :
    (a b : ℕ) (es : List Entry)
    → a ≤ b
    → All (λ (f : Entry). f.created_at ≤ a) es
    → All (λ (f : Entry). f.created_at ≤ b) es
All-trans a b [] le h = tt
All-trans a b (e ∷ es) le (p, h) = (omega (arith, p, le), All-trans a b es le h)

All-without :
    (k : Bytes) (a : ℕ) (es : List Entry)
    → All (λ (f : Entry). f.created_at ≤ a) es
    → All (λ (f : Entry). f.created_at ≤ a) (without k es)
All-without k a [] h = tt
All-without k a (e ∷ es) (p, h) = elim (bytes_discrete e.handle k) [
  | yes x ↦ rw (if_pos (bytes_discrete e.handle k) x) (All-without k a es h)
  | no x ↦ rw (if_neg (bytes_discrete e.handle k) x) (p, All-without k a es h)
]

insert_by_created-newest :
    (e : Entry) (es : List Entry)
    → All (λ (f : Entry). f.created_at ≤ e.created_at) es
    → insert_by_created e es ≡ e ∷ es
unfolding insert_by_created
insert_by_created-newest e [] h = refl
insert_by_created-newest e (f ∷ fs) (p, h) =
    let no_less : ltb e.created_at f.created_at ≡ false = ground arith in rw no_less refl

insert_by_created_older :
    (e f : Entry) (fs : List Entry)
    → ltb e.created_at f.created_at ≡ true
    → insert_by_created e (f ∷ fs) ≡ f ∷ insert_by_created e fs
unfolding insert_by_created
insert_by_created_older e f fs older = rw older refl

insert_by_created_newer :
    (e f : Entry) (fs : List Entry)
    → ltb e.created_at f.created_at ≡ false
    → insert_by_created e (f ∷ fs) ≡ e ∷ f ∷ fs
unfolding insert_by_created
insert_by_created_newer e f fs newer = rw newer refl

insert_by_created-IsSorted :
    (e : Entry) (es : List Entry) → IsSorted es → IsSorted (insert_by_created e es)
unfolding insert_by_created
insert_by_created-IsSorted e [] h = (tt, tt)
insert_by_created-IsSorted e (f ∷ fs) (top, h) = elim (Bool-cases (ltb e.created_at f.created_at)) [
  | inl older ↦
      let le : e.created_at ≤ f.created_at = ground arith in
      rw older (
        insert_by_created-All (λ (g : Entry). g.created_at ≤ f.created_at) e fs le top,
        insert_by_created-IsSorted e fs h,
      )
  | inr newer ↦
      let le : f.created_at ≤ e.created_at = ground arith in
      rw newer ((le, All-trans f.created_at e.created_at fs le top), (top, h))
]

by_created-IsSorted : (es : List Entry) → IsSorted (by_created es)
unfolding by_created
by_created-IsSorted [] = tt
by_created-IsSorted (e ∷ es) = insert_by_created-IsSorted e (by_created es) (by_created-IsSorted es)

without-insert_same :
    (k : Bytes) (e : Entry) (es : List Entry)
    → e.handle ≡ k
    → without k (insert_by_created e es) ≡ without k es
unfolding insert_by_created
without-insert_same k e [] same = if_pos (bytes_discrete e.handle k) same _ _
without-insert_same k e (f ∷ fs) same = elim (Bool-cases (ltb e.created_at f.created_at)) [
  | inl older ↦ rw older (
      ap (λ (r : List Entry). ite (bytes_discrete f.handle k) r (f ∷ r))
        (without-insert_same k e fs same))
  | inr newer ↦ rw newer (if_pos (bytes_discrete e.handle k) same _ _)
]

without-insert_ne :
    (k : Bytes) (e : Entry) (es : List Entry)
    → e.handle ≢ k
    → IsSorted es
    → without k (insert_by_created e es) ≡ insert_by_created e (without k es)
without-insert_ne k e [] other sorted =
    unfold insert_by_created in if_neg (bytes_discrete e.handle k) other _ _
without-insert_ne k e (f ∷ fs) other (top, sorted) =
    elim (Bool-cases (ltb e.created_at f.created_at)) [
      | inl older ↦ elim (bytes_discrete f.handle k) [
        | yes gone ↦
            ap (without k) (insert_by_created_older e f fs older)
            ∙ (if_pos (bytes_discrete f.handle k) gone _ _
                ∙ (without-insert_ne k e fs other sorted
                    ∙ ap (insert_by_created e) (
                        sym (
                          if_pos (bytes_discrete f.handle k) gone (without k fs)
                            (f ∷ without k fs)))))
        | no stays ↦
            ap (without k) (insert_by_created_older e f fs older)
            ∙ (if_neg (bytes_discrete f.handle k) stays _ _
                ∙ (ap (◌∷◌ f) (without-insert_ne k e fs other sorted)
                    ∙ (sym (insert_by_created_older e f (without k fs) older)
                        ∙ ap (insert_by_created e) (
                            sym (
                              if_neg (bytes_discrete f.handle k) stays (without k fs)
                                (f ∷ without k fs))))))
      ]
      | inr newer ↦
          let le : f.created_at ≤ e.created_at = ground arith in
          ap (without k) (insert_by_created_newer e f fs newer)
          ∙ (if_neg (bytes_discrete e.handle k) other _ _
              ∙ sym (
                  insert_by_created-newest e (without k (f ∷ fs)) (
                    All-without k e.created_at (f ∷ fs)
                      (le, All-trans f.created_at e.created_at fs le top))))
    ]

by_created-without :
    (k : Bytes) (es : List Entry) → by_created (without k es) ≡ without k (by_created es)
unfolding by_created
by_created-without k [] = refl
by_created-without k (e ∷ es) = elim (bytes_discrete e.handle k) [
  | yes same ↦
      rw (if_pos (bytes_discrete e.handle k) same)
        (by_created-without k es ∙ sym (without-insert_same k e (by_created es) same))
  | no other ↦ rw (if_neg (bytes_discrete e.handle k) other) (
      ap (insert_by_created e) (by_created-without k es)
      ∙ sym (without-insert_ne k e (by_created es) other (by_created-IsSorted es)))
]

by_created-without_all :
    (ds es : List Entry) → by_created (without_all ds es) ≡ without_all ds (by_created es)
by_created-without_all [] es = refl
by_created-without_all (d ∷ ds) es =
    by_created-without_all ds (without d.handle es)
    ∙ ap (without_all ds) (by_created-without d.handle es)

without_absent :
    (k : Bytes) (es : List Entry) → All (λ (f : Entry). f.handle ≢ k) es → without k es ≡ es
without_absent k [] h = refl
without_absent k (e ∷ es) (p, h) =
    if_neg (bytes_discrete e.handle k) p _ _ ∙ ap (◌∷◌ e) (without_absent k es h)

without_all-cons :
    (ds : List Entry) (e : Entry) (es : List Entry)
    → All (λ (f : Entry). f.handle ≢ e.handle) ds
    → without_all ds (e ∷ es) ≡ e ∷ without_all ds es
without_all-cons [] e es h = refl
without_all-cons (d ∷ ds) e es (p, h) =
    ap (without_all ds) (if_neg (bytes_discrete e.handle d.handle) (λ x. p (sym x)) _ _)
    ∙ without_all-cons ds e (without d.handle es) h

without_all-drop :
    (n : ℕ) (es : List Entry) → AreDifferent es → without_all (drop n es) es ≡ take n es
without_all-drop zero [] d = refl
without_all-drop (suc n) [] d = refl
without_all-drop zero (e ∷ es) (others, d) =
    ap (without_all es)
      (if_pos (bytes_discrete e.handle e.handle) refl _ _ ∙ without_absent e.handle es others)
    ∙ without_all-drop zero es d
without_all-drop (suc n) (e ∷ es) (others, d) =
    without_all-cons (drop n es) e es (drop-All (λ (f : Entry). f.handle ≢ e.handle) n es others)
    ∙ ap (◌∷◌ e) (without_all-drop n es d)

-- what is left are the first entries of the sorted index
pub list-prune_locked :
    (disk : Disk) (max : ℤ) (s : Store)
    → IsKeyed s.idx
    → list (prune_locked disk max s).0 ≡ take (or_default max_entries max) (list s)
unfolding list prune_locked
list-prune_locked disk max s keyed =
    elim (Bool-cases (leb (length s.idx) (or_default max_entries max))) [
      | inl fits ↦
          let size : length (by_created (entries s.idx)) ≡ length s.idx =
            by_created-length (entries s.idx) ∙ length-map (λ (r : Bytes × Entry). r.1) s.idx in
          let small = leb→le (length s.idx) (or_default max_entries max) fits in
          rw fits (
            sym (
              take_of_length-le (or_default max_entries max) (by_created (entries s.idx))
                (omega (arith, small, size))))
      | inr over ↦
          let sorted = by_created (entries s.idx) in
          let old = drop (or_default max_entries max) sorted in
          rw over (
            ap by_created (entries-remove_entries disk old s keyed.1)
            ∙ (by_created-without_all old (entries s.idx)
                ∙ without_all-drop (or_default max_entries max) sorted
                    (by_created-AreDifferent (entries s.idx) (entries-AreListed s.idx keyed).1)))
    ]
