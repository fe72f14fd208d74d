-- ===== src/Cache/Latest.antt =====
-- internal/cache/cache.go: the rows that the query of `loadFromDB` shows.
use costwise_mcp.Prelude.{
  ℕ, zero, suc, ◌<◌, ◌≡◌, ◌≢◌, refl, ap, sym, [], ◌∷◌, none, Bytes, bytes_discrete, ltb, length,
  take, lookup, arith, Bool-cases, ℤ, pos, negsuc, or_default, inl, inr, Distinct, Bool, true,
  false, ◌≤◌, keep_if, sort_by, insert_by, IsStrictOrder,
}
use costwise_mcp.Cache.{Row, Table}
use costwise_mcp.Cache.Rows.{IsNew, stored_entries}

-- the row was used after the other
abbrev pub later : Bytes × Row → Bytes × Row → Bool
later r s = ltb s.1.last_accessed r.1.last_accessed

lookup-insert_by-none :
    (h : Bytes) (r : Bytes × Row) (t : Table)
    → r.0 ≢ h
    → lookup bytes_discrete h t ≡ none
    → lookup bytes_discrete h (insert_by later r t) ≡ none
unfolding insert_by
lookup-insert_by-none h r [] ne e = ground arith
lookup-insert_by-none h r (q ∷ t) ne e = ground (arith, lookup-insert_by-none h r t ne)

insert_by-Distinct :
    (r : Bytes × Row) (t : Table)
    → Distinct bytes_discrete t
    → lookup bytes_discrete r.0 t ≡ none
    → Distinct bytes_discrete (insert_by later r t)
unfolding insert_by
insert_by-Distinct r [] d e = (refl, tt)
insert_by-Distinct r (q ∷ t) d e = elim (Bool-cases (ltb r.1.last_accessed q.1.last_accessed)) [
  | inr first ↦ rw first (e, d)
  | inl after ↦ elim (bytes_discrete q.0 r.0) [
    | yes p ↦ absurd (ground arith)
    | no p ↦ rw after (
      lookup-insert_by-none q.0 r t (λ x. p (sym x)) d.0,
      insert_by-Distinct r t d.1 (ground arith),
    )
  ]
]

lookup-sort_by-none :
    (h : Bytes) (t : Table)
    → lookup bytes_discrete h t ≡ none
    → lookup bytes_discrete h (sort_by later t) ≡ none
unfolding sort_by
lookup-sort_by-none h [] e = refl
lookup-sort_by-none h ((j, r) ∷ t) e = elim (bytes_discrete j h) [
  | yes p ↦ absurd (ground arith)
  | no p ↦
      lookup-insert_by-none h (j, r) (sort_by later t) p (lookup-sort_by-none h t (ground arith))
]

pub sort_by-Distinct :
    (t : Table) → Distinct bytes_discrete t → Distinct bytes_discrete (sort_by later t)
unfolding sort_by
sort_by-Distinct [] d = tt
sort_by-Distinct ((h, r) ∷ t) d =
    insert_by-Distinct (h, r) (sort_by later t) (sort_by-Distinct t d.1)
      (lookup-sort_by-none h t d.0)

lookup-keep_if-none :
    (p : Bytes × Row → Bool) (h : Bytes) (t : Table)
    → lookup bytes_discrete h t ≡ none
    → lookup bytes_discrete h (keep_if p t) ≡ none
lookup-keep_if-none p h [] e = refl
lookup-keep_if-none p h ((j, r) ∷ t) e = ground (arith, lookup-keep_if-none p h t)

pub keep_if-Distinct :
    (p : Bytes × Row → Bool) (t : Table)
    → Distinct bytes_discrete t
    → Distinct bytes_discrete (keep_if p t)
keep_if-Distinct p [] d = tt
keep_if-Distinct p ((h, r) ∷ t) d = elim (Bool-cases (p (h, r))) [
  | inl kept ↦ rw kept (lookup-keep_if-none p h t d.0, keep_if-Distinct p t d.1)
  | inr left ↦ rw left (keep_if-Distinct p t d.1)
]

pub length-keep_if-le : (p : Bytes × Row → Bool) (t : Table) → length (keep_if p t) ≤ length t
length-keep_if-le p [] = omega arith
length-keep_if-le p (r ∷ t) = ground (arith, length-keep_if-le p t)

pub keep_if-all : (t : Table) → keep_if (λ (_ : Bytes × Row). true) t ≡ t
keep_if-all [] = refl
keep_if-all (r ∷ t) = ap (◌∷◌ r) (keep_if-all t)

later_asymmetric : (a b : ℕ) → ltb b a ≡ true → ltb a b ≡ false
later_asymmetric a b h = ground arith

later_cotransitive : (a b c : ℕ) → ltb b c ≡ false → ltb a b ≡ false → ltb a c ≡ false
later_cotransitive a b c h k = ground arith

pub later-IsStrictOrder : IsStrictOrder later
later-IsStrictOrder = record {
  asymmetric = λ r s h. later_asymmetric r.1.last_accessed s.1.last_accessed h;
  cotransitive =
      λ r s q h k. later_cotransitive r.1.last_accessed s.1.last_accessed q.1.last_accessed h k;
}

lookup-take-none :
    (h : Bytes) (n : ℕ) (t : Table)
    → lookup bytes_discrete h t ≡ none
    → lookup bytes_discrete h (take n t) ≡ none
lookup-take-none h zero t e = refl
lookup-take-none h (suc n) [] e = refl
lookup-take-none h (suc n) ((j, r) ∷ t) e = ground (arith, lookup-take-none h n t)

pub take-Distinct :
    (n : ℕ) (t : Table) → Distinct bytes_discrete t → Distinct bytes_discrete (take n t)
take-Distinct zero t d = tt
take-Distinct (suc n) [] d = tt
take-Distinct (suc n) ((h, r) ∷ t) d = (lookup-take-none h n t d.0, take-Distinct n t d.1)

pub All-IsNew : (t : Table) → IsNew [] t
All-IsNew [] = tt
All-IsNew (r ∷ t) = (refl, All-IsNew t)

pub or_default_pos : (n : ℤ) → 0 < or_default 100 n
or_default_pos (pos zero) = omega arith
or_default_pos (pos (suc n)) = omega arith
or_default_pos (negsuc n) = omega arith

pub length-stored : (t : Table) → length (stored_entries t) ≡ length t
length-stored [] = refl
length-stored (r ∷ t) = ap suc (length-stored t)
