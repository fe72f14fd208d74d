-- ===== src/Cache/Elements.antt =====
-- internal/cache/cache.go: the list `lru` as a linked list of cells, and what it shows of the cache.
use mathlib.Core.Logic.{ite, if_pos, if_neg}
use native.Mathlib.Decide.{ℕ_discrete}
use costwise_mcp.Prelude.{
  ℕ, zero, suc, ◌<◌, ◌≡◌, ◌≢◌, refl, ap, List, [], ◌∷◌, Option, none, some, Bytes, bytes_discrete,
  length, take, get_last?, lookup, delete, All, arith, delete_absent, lookup-delete-none,
}
use costwise_mcp.Cache.{CacheItem, CacheEntry}

abbrev pub Elements : Type 0
Elements = List (ℕ × CacheItem)

-- the first element with a hash
abbrev pub find : Bytes → Elements → Option (ℕ × CacheItem)
find h [] = none
find h ((i, item) ∷ l) = ite (bytes_discrete item.key_hash h) (some (i, item)) (find h l)

abbrev pub pointer : Option (ℕ × CacheItem) → Option ℕ
pointer none = none
pointer (some (i, item)) = some i

-- what a client can see: the entries under their hashes, the most recent first
abbrev pub view : Elements → List (Bytes × CacheEntry)
view [] = []
view ((i, item) ∷ l) = (item.key_hash, item.entry) ∷ view l

-- no cell and no hash stands twice
abbrev pub IsLinked : Elements → Type 0
IsLinked [] = Unit
IsLinked ((i, item) ∷ l) =
    (lookup ℕ_discrete i l ≡ none) × (find item.key_hash l ≡ none) × IsLinked l

pub length-view : (l : Elements) → length (view l) ≡ length l
length-view [] = refl
length-view ((i, item) ∷ l) = ap suc (length-view l)

pub view-take : (n : ℕ) (l : Elements) → view (take n l) ≡ take n (view l)
view-take zero l = refl
view-take (suc n) [] = refl
view-take (suc n) ((i, item) ∷ l) = ap (◌∷◌ (item.key_hash, item.entry)) (view-take n l)

pub find-none-view :
    (h : Bytes) (l : Elements) → find h l ≡ none → lookup bytes_discrete h (view l) ≡ none
find-none-view h [] e = refl
find-none-view h ((i, item) ∷ l) e = ground (arith, find-none-view h l)

pub find-some-view :
    (h : Bytes) (l : Elements) {i : ℕ} {item : CacheItem}
    → find h l ≡ some (i, item)
    → lookup bytes_discrete h (view l) ≡ some item.entry
find-some-view h [] e = cc
find-some-view h ((j, other) ∷ l) {i} {item} e =
    ground (arith, find-some-view h l {i = i} {item = item})

-- the cell that a hash finds holds that hash
pub find-key_hash :
    (h : Bytes) (l : Elements) {i : ℕ} {item : CacheItem}
    → find h l ≡ some (i, item)
    → item.key_hash ≡ h
find-key_hash h [] e = cc
find-key_hash h ((j, other) ∷ l) {i} {item} e =
    ground (arith, find-key_hash h l {i = i} {item = item})

pub find-cell :
    (h : Bytes) (l : Elements) {i : ℕ} {item : CacheItem}
    → IsLinked l
    → find h l ≡ some (i, item)
    → lookup ℕ_discrete i l ≡ some item
find-cell h [] w e = cc
find-cell h ((j, other) ∷ l) {i} {item} w e = ground (arith, find-cell h l {i = i} {item = item})

-- without the cell that a hash finds, no cell has the hash
pub find-delete_self :
    (h : Bytes) (l : Elements) {i : ℕ} {item : CacheItem}
    → IsLinked l
    → find h l ≡ some (i, item)
    → find h (delete ℕ_discrete i l) ≡ none
find-delete_self h [] w e = cc
find-delete_self h ((j, other) ∷ l) {i} {item} w e = ground (
  arith,
  find-delete_self h l {i = i} {item = item},
  find-cell h l {i = i} {item = item},
  delete_absent ℕ_discrete i l,
)

pub find-delete_ne :
    (h q : Bytes) (l : Elements) {i : ℕ} {item : CacheItem}
    → IsLinked l
    → find h l ≡ some (i, item)
    → q ≢ h
    → find q (delete ℕ_discrete i l) ≡ find q l
find-delete_ne h q [] w e ne = cc
find-delete_ne h q ((j, other) ∷ l) {i} {item} w e ne = ground (
  arith,
  find-delete_ne h q l {i = i} {item = item},
  find-cell h l {i = i} {item = item},
  delete_absent ℕ_discrete i l,
)

pub view-delete :
    (h : Bytes) (l : Elements) {i : ℕ} {item : CacheItem}
    → IsLinked l
    → find h l ≡ some (i, item)
    → view (delete ℕ_discrete i l) ≡ delete bytes_discrete h (view l)
view-delete h [] w e = cc
view-delete h ((j, other) ∷ l) {i} {item} w e = ground (
  arith,
  view-delete h l {i = i} {item = item},
  find-cell h l {i = i} {item = item},
  delete_absent ℕ_discrete i l,
  delete_absent bytes_discrete h (view l),
  find-none-view h l,
)

find-delete-none :
    (h : Bytes) (i : ℕ) (l : Elements) → find h l ≡ none → find h (delete ℕ_discrete i l) ≡ none
find-delete-none h i [] e = refl
find-delete-none h i ((j, other) ∷ l) e = ground (arith, find-delete-none h i l)

pub delete-IsLinked : (i : ℕ) (l : Elements) → IsLinked l → IsLinked (delete ℕ_discrete i l)
delete-IsLinked i [] w = tt
delete-IsLinked i ((j, other) ∷ l) w = elim (ℕ_discrete j i) [
  | yes p ↦ rw (if_pos _ p) (delete-IsLinked i l w.2)
  | no p ↦ rw (if_neg _ p) (
    lookup-delete-none ℕ_discrete i j l w.0,
    find-delete-none other.key_hash i l w.1,
    delete-IsLinked i l w.2,
  )
]

-- every cell is older than a number
abbrev pub IsBelow : ℕ → Elements → Type 0
IsBelow n = All (λ e. e.0 < n)

pub delete-IsBelow : (n i : ℕ) (l : Elements) → IsBelow n l → IsBelow n (delete ℕ_discrete i l)
delete-IsBelow n i [] w = tt
delete-IsBelow n i ((j, other) ∷ l) w = elim (ℕ_discrete j i) [
  | yes p ↦ rw (if_pos _ p) (delete-IsBelow n i l w.1)
  | no p ↦ rw (if_neg _ p) (w.0, delete-IsBelow n i l w.1)
]

pub IsBelow-suc : (n : ℕ) (l : Elements) → IsBelow n l → IsBelow (suc n) l
IsBelow-suc n [] w = tt
IsBelow-suc n (e ∷ l) w = (omega arith, IsBelow-suc n l w.1)

pub IsBelow-fresh : (n : ℕ) (l : Elements) → IsBelow n l → lookup ℕ_discrete n l ≡ none
IsBelow-fresh n [] w = refl
IsBelow-fresh n ((j, other) ∷ l) w = ground (arith, IsBelow-fresh n l w.1)

pub lookup-IsBelow :
    (n i : ℕ) (l : Elements) {item : CacheItem}
    → IsBelow n l
    → lookup ℕ_discrete i l ≡ some item
    → i < n
lookup-IsBelow n i [] w e = cc
lookup-IsBelow n i ((j, other) ∷ l) {item} w e =
    ground (arith, lookup-IsBelow n i l {item = item} w.1)

pub length-delete_cell :
    (i : ℕ) (l : Elements) {item : CacheItem}
    → IsLinked l
    → lookup ℕ_discrete i l ≡ some item
    → suc (length (delete ℕ_discrete i l)) ≡ length l
length-delete_cell i [] w e = cc
length-delete_cell i ((j, other) ∷ l) {item} w e =
    ground (arith, length-delete_cell i l {item = item}, delete_absent ℕ_discrete i l)

-- the last cell is the one that its hash finds, and to delete it is to drop the end
pub get_last?-cell :
    (n : ℕ) (l : Elements)
    → length l ≡ suc n
    → IsLinked l
    → (i : ℕ) × (item : CacheItem) × (get_last? l ≡ some (i, item))
      × (find item.key_hash l ≡ some (i, item))
      × (delete ℕ_discrete i l ≡ take n l)
get_last?-cell n [] e w = absurd (omega arith)
get_last?-cell zero ((i, item) ∷ []) e w = (i, item, refl, ground arith, ground arith)
get_last?-cell zero (x ∷ y ∷ l) e w = absurd (omega arith)
get_last?-cell (suc n) (x ∷ []) e w = absurd (omega arith)
get_last?-cell (suc n) ((j, other) ∷ x ∷ l) e w =
    let (i, item, last, found, gone) = get_last?-cell n (x ∷ l) (omega arith) w.2 in
    (
      i,
      item,
      last,
      ground arith,
      ground (arith, find-cell item.key_hash (x ∷ l) {i = i} {item = item} w.2 found),
    )
