-- ===== src/Index/Matches.antt =====
-- internal/treesitter/db.go: which symbols `Search` finds.
use costwise_mcp.Prelude.{
  ℕ, ◌≡◌, ◌≢◌, refl, sym, ◌∙◌, Bool, true, false, ◌&&◌, ◌||◌, [], ◌∷◌, ℤ, or_default, Bytes,
  bytes_eq, ltb, ◌==◌, if◌then◌else◌, IsStrictOrder, IsTop, take-sort_by-IsTop, to_lower, contains,
  has_prefix, arith,
}
use costwise_mcp.Index.Database.{Symbol, Tables}
use costwise_mcp.Index.Searches.{
  some_rest, like, prefix_pattern, partial_pattern, is_found, found_before, all_symbols,
  search_rows,
}

-- neither of the two wildcards
abbrev pub IsPlain : Bytes → Type 0
IsPlain [] = Unit
IsPlain (b ∷ s) = (b ≢ b'%') × (b ≢ b'_') × IsPlain s

some_rest-true : (s : Bytes) → some_rest (like []) s ≡ true
some_rest-true [] = refl
some_rest-true (c ∷ s) = some_rest-true s

-- a plain pattern that ends in `%` matches the texts that begin with it
like-prefix_pattern :
    (q s : Bytes) → IsPlain q → like (prefix_pattern q) s ≡ has_prefix (to_lower s) (to_lower q)
like-prefix_pattern [] s plain = some_rest-true s ∙ sym (has_prefix_nil (to_lower s))
  where
    has_prefix_nil : (t : Bytes) → has_prefix t [] ≡ true
    has_prefix_nil [] = refl
    has_prefix_nil (c ∷ t) = refl
like-prefix_pattern (b ∷ q) [] (p, u, plain) = ground arith
like-prefix_pattern (b ∷ q) (c ∷ s) (p, u, plain) = ground (arith, like-prefix_pattern q s plain)

like-partial_pattern :
    (q s : Bytes) → IsPlain q → like (partial_pattern q) s ≡ contains (to_lower s) (to_lower q)
like-partial_pattern q [] plain = like-prefix_pattern q [] plain
like-partial_pattern q (c ∷ s) plain =
    rw (like-prefix_pattern q (c ∷ s) plain, like-partial_pattern q s plain) refl

like-plain : (q s : Bytes) → IsPlain q → like q s ≡ bytes_eq (to_lower s) (to_lower q)
like-plain [] [] plain = refl
like-plain [] (c ∷ s) plain = refl
like-plain (b ∷ q) [] (p, u, plain) = ground arith
like-plain (b ∷ q) (c ∷ s) (p, u, plain) = ground (arith, like-plain q s plain)

-- whether the name begins with the query or the signature holds it, whatever the case
abbrev pub holds : Bytes → Symbol → Bool
holds query s =
    has_prefix (to_lower s.name) (to_lower query)
    || contains (to_lower s.signature) (to_lower query)

-- 0 for the query itself, 1 for a name that begins with it, and 2 for others
abbrev pub closeness : Bytes → Symbol → ℕ
closeness query s =
    if bytes_eq (to_lower s.name) (to_lower query)
    then 0
    else if has_prefix (to_lower s.name) (to_lower query)
    then 1
    else 2

-- the closer name first, and then the earlier line
abbrev pub closer : Bytes → Symbol → Symbol → Bool
closer query r s =
    ltb (closeness query r) (closeness query s)
    || (closeness query r == closeness query s && ltb r.start_line s.start_line)

equal_prefix : (s t : Bytes) → (bytes_eq s t || has_prefix s t) ≡ has_prefix s t
equal_prefix [] [] = refl
equal_prefix [] (b ∷ t) = refl
equal_prefix (a ∷ s) [] = refl
equal_prefix (a ∷ s) (b ∷ t) = ground (arith, equal_prefix s t)

is_found-holds : (query : Bytes) (s : Symbol) → IsPlain query → is_found query s ≡ holds query s
is_found-holds query s plain =
    rw
      (
        like-plain query s.name plain,
        like-prefix_pattern query s.name plain,
        like-partial_pattern query s.signature plain,
      )
      (merge (bytes_eq (to_lower s.name) (to_lower query)) _ _
        (equal_prefix (to_lower s.name) (to_lower query)))
  where
    merge : (a b c : Bool) → (a || b) ≡ b → (a || (b || c)) ≡ (b || c)
    merge true b c h = rw (sym h) refl
    merge false b c h = refl

found_before-closer :
    (query : Bytes) (r s : Symbol) → IsPlain query → found_before query r s ≡ closer query r s
found_before-closer query r s plain =
    rw
      (
        like-plain query r.name plain,
        like-prefix_pattern query r.name plain,
        like-plain query s.name plain,
        like-prefix_pattern query s.name plain,
      )
      refl

ranks_asymmetric :
    (a b m n : ℕ)
    → (ltb a b || (a == b && ltb m n)) ≡ true
    → (ltb b a || (b == a && ltb n m)) ≡ false
ranks_asymmetric a b m n h = ground arith

ranks_cotransitive :
    (a b c m n k : ℕ)
    → (ltb c b || (c == b && ltb k n)) ≡ false
    → (ltb b a || (b == a && ltb n m)) ≡ false
    → (ltb c a || (c == a && ltb k m)) ≡ false
ranks_cotransitive a b c m n k g h = ground arith

closer-IsStrictOrder : (query : Bytes) → IsStrictOrder (closer query)
closer-IsStrictOrder query = record {
  asymmetric =
      λ r s h. ranks_asymmetric (closeness query r) (closeness query s) r.start_line s.start_line h;
  cotransitive = λ r s t g h.
      ranks_cotransitive (closeness query r) (closeness query s) (closeness query t) r.start_line
        s.start_line t.start_line g h;
}

-- For a query without the wildcards `%` and `_`, `Search` returns rows of the symbols whose name
-- begins with the query or whose signature holds it, in any case of the letters: at most as many
-- as the limit, or 20 for a limit that is not positive, and fewer only if there are no more, the
-- query itself first, then the names that begin with it, then the others, by their lines, and none
-- that comes behind one left out.
pub search_rows-IsTop :
    (query : Bytes) (limit : ℤ) (t : Tables)
    → IsPlain query
    → IsTop
        (closer query)
        (holds query)
        (or_default 20 limit)
        (all_symbols t)
        (search_rows query limit t)
unfolding search_rows
search_rows-IsTop query limit t plain =
    let same_order : found_before query ≡ closer query =
      λ i r s. found_before-closer query r s plain i in
    let same_test : is_found query ≡ holds query = λ i s. is_found-holds query s plain i in
    rw (same_order, same_test)
      (take-sort_by-IsTop (closer query) (closer-IsStrictOrder query) (holds query)
        (or_default 20 limit) (all_symbols t))
