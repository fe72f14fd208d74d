-- ===== src/Stash/Pruning.antt =====
-- internal/stash/stash.go: the entries that `pruneLocked` removes.
use costwise_mcp.Prelude.{
  ℕ, zero, suc, ◌+◌, ◌-◌, ◌≤◌, ◌≡◌, ◌≢◌, refl, ap, sym, ◌∙◌, subst, inl, inr, List, [], ◌∷◌, none,
  some, Bytes, bytes_discrete, ltb, leb, leb→le, lookup, delete, All, length, length-map,
  length-drop, drop, arith, Bool-cases, lookup-delete_ne, delete_absent, Distinct, delete-Distinct,
  ℤ, or_default, if◌then◌else◌,
}
use Prim.Native.Nat.{min}
use mathlib.Core.Logic.{if_pos, if_neg}
use costwise_mcp.Stash.{
  Entry, Store, Disk, blob_name, max_entries, entries, insert_by_created, by_created,
  remove_entries, prune_locked,
}

-- every entry stands under its handle, and no handle stands twice
abbrev pub IsKeyed : List (Bytes × Entry) → Type 0
IsKeyed idx = Distinct bytes_discrete idx × All (λ (r : Bytes × Entry). r.1.handle ≡ r.0) idx

-- entries with different handles
abbrev pub AreDifferent : List Entry → Type 0
AreDifferent [] = Unit
AreDifferent (e ∷ es) = All (λ (f : Entry). f.handle ≢ e.handle) es × AreDifferent es

-- the entries stand in the index
abbrev AreListed : List (Bytes × Entry) → List Entry → Type 0
AreListed idx es = All (λ (e : Entry). lookup bytes_discrete e.handle idx ≡ some e) es

length-delete_found :
    (k : Bytes) (e : Entry) (idx : List (Bytes × Entry))
    → Distinct bytes_discrete idx
    → lookup bytes_discrete k idx ≡ some e
    → suc (length (delete bytes_discrete k idx)) ≡ length idx
length-delete_found k e [] d h = absurd (cc h)
length-delete_found k e ((j, f) ∷ idx) (free, d) h = elim (bytes_discrete j k) [
  | yes same ↦ ap suc (
      ap length (
        if_pos (bytes_discrete j k) same _ _
        ∙ ap (λ (x : Bytes). delete bytes_discrete x idx) (sym same)
        ∙ delete_absent bytes_discrete j idx free))
  | no other ↦
      let there =
        sym (if_neg (bytes_discrete j k) other (some f) (lookup bytes_discrete k idx)) ∙ h in
      ap suc (
        ap length (if_neg (bytes_discrete j k) other _ ((j, f) ∷ delete bytes_discrete k idx))
        ∙ length-delete_found k e idx d there)
]

AreListed-delete :
    (k : Bytes) (idx : List (Bytes × Entry)) (es : List Entry)
    → All (λ (f : Entry). f.handle ≢ k) es
    → AreListed idx es
    → AreListed (delete bytes_discrete k idx) es
AreListed-delete k idx [] apart listed = tt
AreListed-delete k idx (e ∷ es) (other, apart) (there, listed) = (
  lookup-delete_ne bytes_discrete k e.handle idx other ∙ there,
  AreListed-delete k idx es apart listed,
)

-- The loop removes as many entries as it is given.
remove_entries-length :
    (disk : Disk) (es : List Entry) (s : Store)
    → Distinct bytes_discrete s.idx
    → AreDifferent es
    → AreListed s.idx es
    → length (remove_entries disk es s).idx + length es ≡ length s.idx
remove_entries-length disk [] s d apart listed = omega arith
remove_entries-length disk (e ∷ es) s d (others, apart) (there, listed) =
    let rest = delete bytes_discrete e.handle s.idx in
    let one = length-delete_found e.handle e s.idx d there in
    let next =
      remove_entries-length disk es
        (record {
          files =
              if disk.removable (blob_name e.handle)
              then delete bytes_discrete (blob_name e.handle) s.files
              else s.files;
          idx = rest;
        })
        (delete-Distinct bytes_discrete e.handle s.idx d) apart
        (AreListed-delete e.handle s.idx es others listed) in
    omega (arith, one, next)

module _ (P : Entry → Type 0) where
  pub insert_by_created-All :
      (e : Entry) (es : List Entry) → P e → All P es → All P (insert_by_created e es)
  unfolding insert_by_created
  insert_by_created-All e [] p h = (p, tt)
  insert_by_created-All e (f ∷ fs) p (q, h) = elim (Bool-cases (ltb e.created_at f.created_at)) [
    | inl older ↦ rw older (q, insert_by_created-All e fs p h)
    | inr newer ↦ rw newer (p, (q, h))
  ]

  pub by_created-All : (es : List Entry) → All P es → All P (by_created es)
  unfolding by_created
  by_created-All [] h = tt
  by_created-All (e ∷ es) (p, h) = insert_by_created-All e (by_created es) p (by_created-All es h)

  pub drop-All : (n : ℕ) (es : List Entry) → All P es → All P (drop n es)
  drop-All zero es h = h
  drop-All (suc n) [] h = tt
  drop-All (suc n) (e ∷ es) (p, h) = drop-All n es h

insert_by_created-AreDifferent :
    (e : Entry) (es : List Entry)
    → All (λ (f : Entry). f.handle ≢ e.handle) es
    → AreDifferent es
    → AreDifferent (insert_by_created e es)
unfolding insert_by_created
insert_by_created-AreDifferent e [] apart d = (tt, tt)
insert_by_created-AreDifferent e (f ∷ fs) (other, apart) (others, d) =
    elim (Bool-cases (ltb e.created_at f.created_at)) [
      | inl older ↦ rw older (
        insert_by_created-All (λ (g : Entry). g.handle ≢ f.handle) e fs (λ x. other (sym x)) others,
        insert_by_created-AreDifferent e fs apart d,
      )
      | inr newer ↦ rw newer ((other, apart), (others, d))
    ]

pub by_created-AreDifferent : (es : List Entry) → AreDifferent es → AreDifferent (by_created es)
unfolding by_created
by_created-AreDifferent [] d = tt
by_created-AreDifferent (e ∷ es) (others, d) =
    insert_by_created-AreDifferent e (by_created es)
      (by_created-All (λ (f : Entry). f.handle ≢ e.handle) es others) (by_created-AreDifferent es d)

drop-AreDifferent : (n : ℕ) (es : List Entry) → AreDifferent es → AreDifferent (drop n es)
drop-AreDifferent zero es d = d
drop-AreDifferent (suc n) [] d = tt
drop-AreDifferent (suc n) (e ∷ es) (others, d) = drop-AreDifferent n es d

insert_by_created-length :
    (e : Entry) (es : List Entry) → length (insert_by_created e es) ≡ suc (length es)
unfolding insert_by_created
insert_by_created-length e [] = refl
insert_by_created-length e (f ∷ fs) = elim (Bool-cases (ltb e.created_at f.created_at)) [
  | inl older ↦ rw older (ap suc (insert_by_created-length e fs))
  | inr newer ↦ rw newer refl
]

pub by_created-length : (es : List Entry) → length (by_created es) ≡ length es
unfolding by_created
by_created-length [] = refl
by_created-length (e ∷ es) =
    insert_by_created-length e (by_created es) ∙ ap suc (by_created-length es)

lookup-none-cons :
    (k j : Bytes) (e : Entry) (idx : List (Bytes × Entry))
    → lookup bytes_discrete k ((j, e) ∷ idx) ≡ none
    → (j ≢ k) × (lookup bytes_discrete k idx ≡ none)
lookup-none-cons k j e idx free = elim (bytes_discrete j k) [
  | yes same ↦
      absurd
        (cc (sym (if_pos (bytes_discrete j k) same (some e) (lookup bytes_discrete k idx)) ∙ free))
  | no other ↦
      (other, sym (if_neg (bytes_discrete j k) other (some e) (lookup bytes_discrete k idx)) ∙ free)
]

entries-apart :
    (k : Bytes) (idx : List (Bytes × Entry))
    → lookup bytes_discrete k idx ≡ none
    → All (λ (r : Bytes × Entry). r.1.handle ≡ r.0) idx
    → All (λ (f : Entry). f.handle ≢ k) (entries idx)
entries-apart k [] free keyed = tt
entries-apart k ((j, e) ∷ idx) free (key, keyed) =
    let (other, rest) = lookup-none-cons k j e idx free in
    ((λ same. other (sym key ∙ same)), entries-apart k idx rest keyed)

AreListed-cons :
    (k : Bytes) (e : Entry) (idx : List (Bytes × Entry)) (es : List Entry)
    → All (λ (f : Entry). f.handle ≢ k) es
    → AreListed idx es
    → AreListed ((k, e) ∷ idx) es
AreListed-cons k e idx [] apart listed = tt
AreListed-cons k e idx (f ∷ fs) (other, apart) (there, listed) = (
  if_neg (bytes_discrete k f.handle) (λ x. other (sym x)) _ _ ∙ there,
  AreListed-cons k e idx fs apart listed,
)

pub entries-AreListed :
    (idx : List (Bytes × Entry))
    → IsKeyed idx
    → AreListed idx (entries idx) × AreDifferent (entries idx)
entries-AreListed [] keyed = (tt, tt)
entries-AreListed ((k, e) ∷ idx) ((free, distinct), (key, keyed)) =
    let (listed, different) = entries-AreListed idx (distinct, keyed) in
    let apart = entries-apart k idx free keyed in
    (
      (
        if_pos (bytes_discrete k e.handle) (sym key) _ _,
        AreListed-cons k e idx (entries idx) apart listed,
      ),
      (
        subst (λ (h : Bytes). All (λ (f : Entry). f.handle ≢ h) (entries idx)) (sym key) apart,
        different,
      ),
    )

-- From an index whose entries stand under their handles, pruning leaves as many entries as fit
-- into the given size, or the default one if that is not positive, and counts all others as
-- removed.
pub prune_locked-length :
    (disk : Disk) (max : ℤ) (s : Store)
    → IsKeyed s.idx
    → let (t, removed) = prune_locked disk max s in
      (length t.idx ≡ min (or_default max_entries max) (length s.idx))
      × (removed + length t.idx ≡ length s.idx)
unfolding prune_locked
prune_locked-length disk max s keyed =
    elim (Bool-cases (leb (length s.idx) (or_default max_entries max))) [
      | inl fits ↦
          let small = leb→le (length s.idx) (or_default max_entries max) fits in
          rw fits (omega (arith, small), omega arith)
      | inr over ↦
          let cap = or_default max_entries max in
          let large : cap ≤ length s.idx = ground arith in
          let sorted = by_created (entries s.idx) in
          let old = drop cap sorted in
          let (listed, different) = entries-AreListed s.idx keyed in
          let count : length old ≡ length s.idx - cap =
            length-drop cap sorted
            ∙ ap (λ (n : ℕ). n - cap)
                (by_created-length (entries s.idx)
                  ∙ length-map (λ (r : Bytes × Entry). r.1) s.idx) in
          let left =
            remove_entries-length disk old s keyed.0
              (drop-AreDifferent cap sorted (by_created-AreDifferent (entries s.idx) different))
              (drop-All (λ (e : Entry). lookup bytes_discrete e.handle s.idx ≡ some e) cap sorted
                (by_created-All (λ (e : Entry). lookup bytes_discrete e.handle s.idx ≡ some e)
                  (entries s.idx) listed)) in
          rw over (omega (arith, left, count, large), omega (arith, left, count, large))
    ]
