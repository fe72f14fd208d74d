-- ===== src/Stash/Newest.antt =====
-- internal/stash/stash.go: the entries that `pruneLocked` keeps.
use costwise_mcp.Prelude.{
  ℕ, ◌≡◌, refl, ap, sym, ◌∙◌, true, false, List, [], ◌∷◌, ltb, take, arith, ℤ, or_default, subst,
  Bool, if◌then◌else◌, keep_if, IsStrictOrder, sort_by, insert_by, IsTop, take-sort_by-IsTop,
}
use costwise_mcp.Stash.{
  Entry, Store, Disk, max_entries, entries, insert_by_created, by_created, list, prune_locked,
}
use costwise_mcp.Stash.Pruning.{IsKeyed}
use costwise_mcp.Stash.Kept.{list-prune_locked}

-- the order by `CreatedAt`, in which entries of the same time are equal
abbrev pub newer : Entry → Entry → Bool
newer e f = ltb f.created_at e.created_at

newer_asymmetric : (a b : ℕ) → ltb b a ≡ true → ltb a b ≡ false
newer_asymmetric a b h = ground arith

newer_cotransitive : (a b c : ℕ) → ltb b c ≡ false → ltb a b ≡ false → ltb a c ≡ false
newer_cotransitive a b c h k = ground arith

newer-IsStrictOrder : IsStrictOrder newer
newer-IsStrictOrder = record {
  asymmetric = λ e f h. newer_asymmetric e.created_at f.created_at h;
  cotransitive = λ e f g h k. newer_cotransitive e.created_at f.created_at g.created_at h k;
}

insert_by_created-insert_by :
    (e : Entry) (es : List Entry) → insert_by_created e es ≡ insert_by newer e es
unfolding insert_by_created insert_by
insert_by_created-insert_by e [] = refl
insert_by_created-insert_by e (f ∷ fs) =
    ap (λ (r : List Entry). if ltb e.created_at f.created_at then f ∷ r else e ∷ f ∷ fs)
      (insert_by_created-insert_by e fs)

by_created-sort_by :
    (es : List Entry) → by_created es ≡ sort_by newer (keep_if (λ (_ : Entry). true) es)
unfolding by_created sort_by
by_created-sort_by [] = refl
by_created-sort_by (e ∷ es) =
    insert_by_created-insert_by e (by_created es) ∙ ap (insert_by newer e) (by_created-sort_by es)

list-sort_by : (s : Store) → list s ≡ sort_by newer (keep_if (λ (_ : Entry). true) (entries s.idx))
unfolding list
list-sort_by s = by_created-sort_by (entries s.idx)

-- From an index whose entries stand under their handles, pruning leaves in `List` the newest
-- entries of the index, newest first and as many as fit into the given or default size, where
-- entries of the same time may come in any order.
pub list-prune_locked-IsTop :
    (disk : Disk) (max : ℤ) (s : Store)
    → IsKeyed s.idx
    → IsTop newer
        (λ _. true)
        (or_default max_entries max)
        (entries s.idx)
        (list (prune_locked disk max s).0)
list-prune_locked-IsTop disk max s keyed =
    let limit = or_default max_entries max in
    subst (IsTop newer (λ _. true) limit (entries s.idx))
      (ap (take limit) (sym (list-sort_by s)) ∙ sym (list-prune_locked disk max s keyed))
      (take-sort_by-IsTop newer newer-IsStrictOrder (λ _. true) limit (entries s.idx))
