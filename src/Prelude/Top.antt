-- ===== src/Prelude/Top.antt =====
-- The first elements by an order: what is left of a sorted list behind a limit.
use Prim.Native.Nat.{ℕ, zero, suc, ◌≤◌}
use mathlib.Core.Path.{◌≡◌, refl, ap, sym, subst}
use mathlib.Core.Logic.{◌≢◌}
use mathlib.Core.Bool.{Bool, false}
use mathlib.Core.List.{List, [], ◌∷◌, ◌++◌, Perm}
use native.Mathlib.Omega.{arith}
use costwise_mcp.Prelude.Lists.{
  length, take, drop, keep_if, take-append-drop, length-take, All, All-take,
}
use costwise_mcp.Prelude.Sorting.{
  sort_by, sort_by-perm, sort_by-IsSortedBy, IsSortedBy, IsStrictOrder,
}

-- the first of the elements that pass a test, at most so many: the others come no earlier
pub record IsTop {ℓ} {A : Type ℓ} (less : A → A → Bool) (keep : A → Bool) (limit : ℕ)
    (all found : List A) : Type ℓ where
  pub rest : List A
  pub complete : Perm (found ++ rest) (keep_if keep all)
  pub sorted : IsSortedBy less found
  pub first : All (λ y. All (λ x. less y x ≡ false) found) rest
  pub limited : length found ≤ limit
  pub full : (rest ≢ []) → length found ≡ limit

module _ {ℓ} {A : Type ℓ} (less : A → A → Bool) where
  take-IsSortedBy : (n : ℕ) (xs : List A) → IsSortedBy less xs → IsSortedBy less (take n xs)
  take-IsSortedBy zero xs h = tt
  take-IsSortedBy (suc n) [] h = tt
  take-IsSortedBy (suc n) (x ∷ xs) (top, h) =
      (All-take (λ y. less y x ≡ false) n xs top, take-IsSortedBy n xs h)

  with_first :
      (x : A) (found rest : List A)
      → All (λ y. less y x ≡ false) rest
      → All (λ y. All (λ z. less y z ≡ false) found) rest
      → All (λ y. All (λ z. less y z ≡ false) (x ∷ found)) rest
  with_first x found [] p q = tt
  with_first x found (y ∷ rest) (p, ps) (q, qs) = ((p, q), with_first x found rest ps qs)

  none_found : (rest : List A) → All (λ y. All (λ z. less y z ≡ false) []) rest
  none_found [] = tt
  none_found (y ∷ rest) = (tt, none_found rest)

  All-drop_list :
      (x : A) (n : ℕ) (xs : List A)
      → All (λ y. less y x ≡ false) xs
      → All (λ y. less y x ≡ false) (drop n xs)
  All-drop_list x zero xs h = h
  All-drop_list x (suc n) [] h = tt
  All-drop_list x (suc n) (y ∷ xs) (p, h) = All-drop_list x n xs h

  drop-first :
      (n : ℕ) (xs : List A)
      → IsSortedBy less xs
      → All (λ y. All (λ x. less y x ≡ false) (take n xs)) (drop n xs)
  drop-first zero xs h = none_found xs
  drop-first (suc n) [] h = tt
  drop-first (suc n) (x ∷ xs) (top, h) =
      with_first x (take n xs) (drop n xs) (All-drop_list x n xs top) (drop-first n xs h)

  take-full : (n : ℕ) (xs : List A) → drop n xs ≢ [] → length (take n xs) ≡ n
  take-full zero xs h = refl
  take-full (suc n) [] h = absurd (h refl)
  take-full (suc n) (x ∷ xs) h = ap suc (take-full n xs h)

  pub take-sort_by-IsTop :
      (order : IsStrictOrder less) (keep : A → Bool) (limit : ℕ) (all : List A)
      → IsTop less keep limit all (take limit (sort_by less (keep_if keep all)))
  take-sort_by-IsTop order keep limit all =
      let sorted = sort_by less (keep_if keep all) in
      let in_order = sort_by-IsSortedBy less order (keep_if keep all) in
      record {
        rest = drop limit sorted;
        complete =
            subst (λ (l : List A). Perm l (keep_if keep all)) (sym (take-append-drop limit sorted))
              (sort_by-perm less (keep_if keep all));
        sorted = take-IsSortedBy limit sorted in_order;
        first = drop-first limit sorted in_order;
        limited = omega (arith, length-take limit sorted);
        full = take-full limit sorted;
      }
