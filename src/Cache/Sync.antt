-- ===== src/Cache/Sync.antt =====
-- internal/cache/cache.go: the agreement of `entries` and `lru`, kept when a cell moves or leaves.
use mathlib.Core.Logic.{if_pos, if_neg}
use native.Mathlib.Decide.{ℕ_discrete}
use costwise_mcp.Prelude.{
  ℕ, ◌≤◌, ◌<◌, ◌≡◌, refl, ap, sym, subst, ◌∙◌, [], ◌∷◌, Option, none, some, Bytes, bytes_discrete,
  length, lookup, delete, arith, lookup-delete_self, Distinct,
}
use costwise_mcp.Cache.{CacheEntry, CacheItem, Cache, move_to_front, set_entry}
use costwise_mcp.Cache.Elements.{
  Elements, find, pointer, view, IsLinked, IsBelow, find-key_hash, find-cell, find-delete_self,
  find-delete_ne, view-delete, delete-IsLinked, delete-IsBelow, lookup-IsBelow, length-delete_cell,
}

-- The map and the list describe the same cells.
pub record IsSync (c : Cache) : Type 0 where
  pub positive : 0 < c.max_size
  pub linked : IsLinked c.lru
  pub below : IsBelow c.next_element c.lru
  pub unique : Distinct bytes_discrete c.entries
  pub agree : (h : Bytes) → lookup bytes_discrete h c.entries ≡ pointer (find h c.lru)

pub record IsValid (c : Cache) : Type 0 where
  pub sync : IsSync c
  pub bounded : length c.lru ≤ c.max_size

pub pointer-none : (o : Option (ℕ × CacheItem)) → pointer o ≡ none → o ≡ none
pointer-none none e = refl
pointer-none (some (i, item)) e = cc

pub pointer-some :
    (o : Option (ℕ × CacheItem)) (i : ℕ)
    → pointer o ≡ some i
    → (item : CacheItem) × (o ≡ some (i, item))
pointer-some none i e = absurd (cc)
pointer-some (some (j, item)) i e = (item, cc)

pub to_front :
    (i : ℕ) (l : Elements) {item : CacheItem}
    → lookup ℕ_discrete i l ≡ some item
    → move_to_front i l ≡ (i, item) ∷ delete ℕ_discrete i l
to_front i l e = rw (e, move_to_front)

pub set_entry_absent :
    (i : ℕ) (v : CacheEntry) (l : Elements) → lookup ℕ_discrete i l ≡ none → set_entry i v l ≡ l
set_entry_absent i v [] e = refl
set_entry_absent i v ((j, item) ∷ l) e = ground (arith, set_entry_absent i v l)

pub set_front :
    (i : ℕ) (item : CacheItem) (v : CacheEntry) (l : Elements)
    → set_entry i v ((i, item) ∷ delete ℕ_discrete i l)
      ≡ (i, record item { entry = v }) ∷ delete ℕ_discrete i l
set_front i item v l = rw (if_pos _ refl) (
    ap (◌∷◌ (i, record item { entry = v }))
      (set_entry_absent i v (delete ℕ_discrete i l) (lookup-delete_self ℕ_discrete i l)))

-- a cell that moves to the front, with any entry of its hash
module _ (h : Bytes) (l : Elements) (i : ℕ) (item : CacheItem) (v : CacheEntry) where
  abbrev pub moved : Elements
  moved = (i, record item { entry = v }) ∷ delete ℕ_discrete i l

  pub moved-IsLinked : IsLinked l → find h l ≡ some (i, item) → IsLinked moved
  moved-IsLinked w e = (
    lookup-delete_self ℕ_discrete i l,
    rw (find-key_hash h l e) (find-delete_self h l w e),
    delete-IsLinked i l w,
  )

  pub moved-IsBelow :
      (n : ℕ) → IsLinked l → IsBelow n l → find h l ≡ some (i, item) → IsBelow n moved
  moved-IsBelow n w b e = (lookup-IsBelow n i l b (find-cell h l w e), delete-IsBelow n i l b)

  pub find-moved :
      (q : Bytes)
      → IsLinked l
      → find h l ≡ some (i, item)
      → pointer (find q moved) ≡ pointer (find q l)
  find-moved q w e = elim (bytes_discrete item.key_hash q) [
    | yes p ↦ rw (if_pos _ p) (cc (find-key_hash h l e))
    | no p ↦
        rw (if_neg _ p) (ap pointer (find-delete_ne h q l w e (λ s. p (cc (find-key_hash h l e)))))
  ]

  pub length-moved : IsLinked l → find h l ≡ some (i, item) → length moved ≡ length l
  length-moved w e = length-delete_cell i l w (find-cell h l w e)

  pub view-moved :
      IsLinked l
      → find h l ≡ some (i, item)
      → view moved ≡ (h, v) ∷ delete bytes_discrete h (view l)
  view-moved w e = cc (find-key_hash h l e, view-delete h l w e)

  pub moved-IsSync :
      (c : Cache)
      → c.lru ≡ l
      → IsSync c
      → find h l ≡ some (i, item)
      → (d : Cache) → d.max_size ≡ c.max_size
      → d.lru ≡ moved
      → d.next_element ≡ c.next_element
      → d.entries ≡ c.entries
      → IsSync d
  moved-IsSync c el s e d em ed en ee = record {
    positive = rw em s.positive;
    linked = rw ed (moved-IsLinked (rw el at s.linked) e);
    below =
        subst (λ n. IsBelow n d.lru) (sym en)
          (subst (IsBelow c.next_element) (sym ed)
            (moved-IsBelow c.next_element (rw el at s.linked) (rw el at s.below) e));
    unique = rw ee s.unique;
    agree = λ q. rw (ed, ee, s.agree q, el) (sym (find-moved q (rw el at s.linked) e));
  }

pub hit-cell :
    (c : Cache) (h : Bytes) (i : ℕ)
    → IsSync c
    → lookup bytes_discrete h c.entries ≡ some i
    → (item : CacheItem) × (find h c.lru ≡ some (i, item))
hit-cell c h i s e = pointer-some (find h c.lru) i (sym (s.agree h) ∙ e)

pub miss-cell :
    (c : Cache) (h : Bytes)
    → IsSync c
    → lookup bytes_discrete h c.entries ≡ none
    → find h c.lru ≡ none
miss-cell c h s e = pointer-none (find h c.lru) (sym (s.agree h) ∙ e)
