-- ===== src/Prelude/Sorting.antt =====
-- `sort.Slice` as a stable insertion sort by a test that tells which element comes first.
use mathlib.Core.Path.{◌≡◌, refl, ap, ◌∙◌}
use mathlib.Core.Logic.{inl, inr}
use mathlib.Core.Bool.{Bool, true, false}
use mathlib.Core.List.{List, [], ◌∷◌, Perm}
use mathlib.Core.List.Perm
use Prim.Native.Nat.{suc}
use costwise_mcp.Prelude.Tests.{if◌then◌else◌, Bool-cases}
use costwise_mcp.Prelude.Lists.{length, All}

module _ {ℓ} {A : Type ℓ} (less : A → A → Bool) where
  unfoldable pub insert_by : A → List A → List A
  insert_by x [] = x ∷ []
  insert_by x (y ∷ ys) = let rest = insert_by x ys in if less y x then y ∷ rest else x ∷ y ∷ ys

  unfoldable pub sort_by : List A → List A
  unfolding insert_by
  sort_by [] = []
  sort_by (x ∷ xs) = insert_by x (sort_by xs)

  -- none of the later elements comes first
  abbrev pub IsSortedBy : List A → Type ℓ
  IsSortedBy [] = Unit
  IsSortedBy (x ∷ xs) = All (λ y. less y x ≡ false) xs × IsSortedBy xs

  -- a test by which elements can be sorted
  pub record IsStrictOrder : Type ℓ where
    pub asymmetric : (x y : A) → less x y ≡ true → less y x ≡ false
    pub cotransitive : (x y z : A) → less z y ≡ false → less y x ≡ false → less z x ≡ false

  pub insert_by-perm : (x : A) (xs : List A) → Perm (insert_by x xs) (x ∷ xs)
  unfolding insert_by
  insert_by-perm x [] = Perm.refl (x ∷ [])
  insert_by-perm x (y ∷ ys) = elim (Bool-cases (less y x)) [
    | inl first ↦ rw first (Perm.trans (Perm.cons y (insert_by-perm x ys)) (Perm.swap x y ys))
    | inr later ↦ rw later (Perm.refl (x ∷ y ∷ ys))
  ]

  pub sort_by-perm : (xs : List A) → Perm (sort_by xs) xs
  unfolding sort_by
  sort_by-perm [] = Perm.refl []
  sort_by-perm (x ∷ xs) = Perm.trans (insert_by-perm x (sort_by xs)) (Perm.cons x (sort_by-perm xs))

  pub insert_by-length : (x : A) (xs : List A) → length (insert_by x xs) ≡ suc (length xs)
  unfolding insert_by
  insert_by-length x [] = refl
  insert_by-length x (y ∷ ys) = elim (Bool-cases (less y x)) [
    | inl first ↦ rw first (ap suc (insert_by-length x ys))
    | inr later ↦ rw later refl
  ]

  pub sort_by-length : (xs : List A) → length (sort_by xs) ≡ length xs
  unfolding sort_by
  sort_by-length [] = refl
  sort_by-length (x ∷ xs) = insert_by-length x (sort_by xs) ∙ ap suc (sort_by-length xs)

module _ {ℓ κ} {A : Type ℓ} (less : A → A → Bool) (P : A → Type κ) where
  pub insert_by-All : (x : A) (xs : List A) → P x → All P xs → All P (insert_by less x xs)
  unfolding insert_by
  insert_by-All x [] p h = (p, tt)
  insert_by-All x (y ∷ ys) p (q, h) = elim (Bool-cases (less y x)) [
    | inl first ↦ rw first (q, insert_by-All x ys p h)
    | inr later ↦ rw later (p, (q, h))
  ]

  pub sort_by-All : (xs : List A) → All P xs → All P (sort_by less xs)
  unfolding sort_by
  sort_by-All [] h = tt
  sort_by-All (x ∷ xs) (p, h) = insert_by-All x (sort_by less xs) p (sort_by-All xs h)

module _ {ℓ} {A : Type ℓ} (less : A → A → Bool) (order : IsStrictOrder less) where
  All-cotransitive :
      (x y : A) (ys : List A)
      → less y x ≡ false
      → All (λ z. less z y ≡ false) ys
      → All (λ z. less z x ≡ false) ys
  All-cotransitive x y [] first h = tt
  All-cotransitive x y (z ∷ zs) first (q, h) =
      (order.cotransitive x y z q first, All-cotransitive x y zs first h)

  insert_by-IsSortedBy :
      (x : A) (xs : List A) → IsSortedBy less xs → IsSortedBy less (insert_by less x xs)
  unfolding insert_by
  insert_by-IsSortedBy x [] h = (tt, tt)
  insert_by-IsSortedBy x (y ∷ ys) (top, h) = elim (Bool-cases (less y x)) [
    | inl first ↦ rw first (
      insert_by-All less (λ z. less z y ≡ false) x ys (order.asymmetric y x first) top,
      insert_by-IsSortedBy x ys h,
    )
    | inr later ↦ rw later ((later, All-cotransitive x y ys later top), (top, h))
  ]

  pub sort_by-IsSortedBy : (xs : List A) → IsSortedBy less (sort_by less xs)
  unfolding sort_by
  sort_by-IsSortedBy [] = tt
  sort_by-IsSortedBy (x ∷ xs) = insert_by-IsSortedBy x (sort_by less xs) (sort_by-IsSortedBy xs)
