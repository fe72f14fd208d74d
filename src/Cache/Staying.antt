-- ===== src/Cache/Staying.antt =====
-- internal/cache/cache.go: what the loop of `Invalidate` leaves in the list and the map.
use mathlib.Core.Logic.{if_pos}
use native.Mathlib.Decide.{ℕ_discrete}
use costwise_mcp.Prelude.{
  ℕ, ◌≤◌, ◌≡◌, refl, ap, sym, subst, ◌∙◌, inl, inr, Bool, true, false, not, List, [], ◌∷◌, none,
  some, Bytes, bytes_discrete, length, keep_if, lookup, delete, arith, Bool-cases, Distinct,
  if◌then◌else◌, All,
}
use costwise_mcp.Cache.{CacheItem, Table, Cache, remove_selected, in_keys}
use costwise_mcp.Cache.Elements.{
  Elements, find, pointer, view, IsLinked, IsBelow, find-key_hash, find-cell,
}
use costwise_mcp.Cache.Sync.{IsSync, IsValid, pointer-some}

module _ (sha256 : Bytes → Bytes) (exec : (Table → Table) → Table → Table) (ks : List Bytes) where
  abbrev stays : Bytes → Bool
  stays h = not (in_keys sha256 exec h ks)

  -- some selected entry of the map points to a cell
  abbrev pointed : List (Bytes × ℕ) → ℕ → Bool
  pointed [] i = false
  pointed ((h, e) ∷ m) i =
      let rest = pointed m i in
      if in_keys sha256 exec h ks
      then elim (ℕ_discrete e i) [ yes _ ↦ true | no _ ↦ rest ]
      else rest

  keep_if-delete :
      (m : List (Bytes × ℕ)) (e : ℕ) (h : Bytes) (l : Elements)
      → in_keys sha256 exec h ks ≡ true
      → keep_if (λ c. not (pointed m c.0)) (delete ℕ_discrete e l)
        ≡ keep_if (λ c. not (pointed ((h, e) ∷ m) c.0)) l
  keep_if-delete m e h [] s = refl
  keep_if-delete m e h ((i, item) ∷ l) s = ground (arith, keep_if-delete m e h l s)

  remove_selected-true :
      (m : List (Bytes × ℕ)) (e : ℕ) (h : Bytes) (l : Elements)
      → in_keys sha256 exec h ks ≡ true
      → remove_selected sha256 exec ks ((h, e) ∷ m) l
        ≡ remove_selected sha256 exec ks m (delete ℕ_discrete e l)
  unfolding remove_selected
  remove_selected-true m e h l s = rw s

  remove_selected-false :
      (m : List (Bytes × ℕ)) (e : ℕ) (h : Bytes) (l : Elements)
      → in_keys sha256 exec h ks ≡ false
      → remove_selected sha256 exec ks ((h, e) ∷ m) l ≡ remove_selected sha256 exec ks m l
  unfolding remove_selected
  remove_selected-false m e h l s = rw s

  keep_if-false :
      (m : List (Bytes × ℕ)) (e : ℕ) (h : Bytes) (l : Elements)
      → in_keys sha256 exec h ks ≡ false
      → keep_if (λ c. not (pointed m c.0)) l ≡ keep_if (λ c. not (pointed ((h, e) ∷ m) c.0)) l
  keep_if-false m e h [] s = refl
  keep_if-false m e h ((i, item) ∷ l) s = ground (arith, keep_if-false m e h l s)

  keep_if-nil : (l : Elements) → keep_if (λ c. not (pointed [] c.0)) l ≡ l
  keep_if-nil [] = refl
  keep_if-nil (c ∷ l) = ap (◌∷◌ c) (keep_if-nil l)

  -- the loop leaves the cells that no selected entry points to
  pub remove_selected-keep_if :
      (m : List (Bytes × ℕ)) (l : Elements)
      → remove_selected sha256 exec ks m l ≡ keep_if (λ c. not (pointed m c.0)) l
  remove_selected-keep_if [] l = unfold remove_selected in sym (keep_if-nil l)
  remove_selected-keep_if ((h, e) ∷ m) l = elim (Bool-cases (in_keys sha256 exec h ks)) [
    | inl s ↦
        remove_selected-true m e h l s
        ∙ (remove_selected-keep_if m (delete ℕ_discrete e l) ∙ keep_if-delete m e h l s)
    | inr n ↦
        remove_selected-false m e h l n ∙ (remove_selected-keep_if m l ∙ keep_if-false m e h l n)
  ]

  -- a selected entry that the map finds is pointed to
  pointed-lookup :
      (m : List (Bytes × ℕ)) (h : Bytes) (i : ℕ)
      → lookup bytes_discrete h m ≡ some i
      → in_keys sha256 exec h ks ≡ true
      → pointed m i ≡ true
  pointed-lookup [] h i e s = cc
  pointed-lookup ((j, x) ∷ m) h i e s = ground (arith, pointed-lookup m h i)

  lookup-pointed :
      (m : List (Bytes × ℕ)) (i : ℕ)
      → Distinct bytes_discrete m
      → pointed m i ≡ true
      → (h : Bytes) × (lookup bytes_discrete h m ≡ some i) × (in_keys sha256 exec h ks ≡ true)
  lookup-pointed [] i d p = absurd (cc)
  lookup-pointed ((j, x) ∷ m) i d p = elim (Bool-cases (pointed m i)) [
    | inl later ↦
        let (h, found, s) = lookup-pointed m i d.1 later in
        (h, elim (bytes_discrete j h) [ yes q ↦ absurd (ground arith) | no q ↦ ground arith ], s)
    | inr never ↦ (j, ground arith, ground arith)
  ]

  -- In a synchronised cache a cell is pointed to exactly if its own hash is selected.
  pointed-in_keys :
      (c : Cache) (i : ℕ) (item : CacheItem)
      → IsSync c
      → find item.key_hash c.lru ≡ some (i, item)
      → pointed c.entries i ≡ in_keys sha256 exec item.key_hash ks
  pointed-in_keys c i item s f = elim (Bool-cases (pointed c.entries i)) [
    | inl p ↦
        let (h, found, chosen) = lookup-pointed c.entries i s.unique p in
        let (other, g) = pointer-some (find h c.lru) i (sym (s.agree h) ∙ found) in
        let same : some item ≡ some other =
          sym (find-cell item.key_hash c.lru s.linked f) ∙ find-cell h c.lru s.linked g in
        let hash : other.key_hash ≡ h = find-key_hash h c.lru g in cc
    | inr n ↦ elim (Bool-cases (in_keys sha256 exec item.key_hash ks)) [
      | inl chosen ↦
          let found : lookup bytes_discrete item.key_hash c.entries ≡ some i =
            s.agree item.key_hash ∙ ap pointer f in
          cc (pointed-lookup c.entries item.key_hash i found chosen)
      | inr other ↦ cc
    ]
  ]

  abbrev staying : Elements → Elements
  staying = keep_if (λ c. stays c.1.key_hash)

  -- Every cell of a part of the list is found by its hash in the whole.
  abbrev IsPart : Cache → Elements → Type 0
  IsPart c = All (λ x. find x.1.key_hash c.lru ≡ some x)

  part-cons :
      (i : ℕ) (item : CacheItem) (l m : Elements)
      → find item.key_hash l ≡ none
      → All (λ x. find x.1.key_hash l ≡ some x) m
      → All (λ x. find x.1.key_hash ((i, item) ∷ l) ≡ some x) m
  part-cons i item l [] f a = tt
  part-cons i item l ((j, other) ∷ m) f a = (ground (arith, a.0), part-cons i item l m f a.1)

  pub All-found : (l : Elements) → IsLinked l → All (λ x. find x.1.key_hash l ≡ some x) l
  All-found [] w = tt
  All-found ((i, item) ∷ l) w = (
    if_pos (bytes_discrete item.key_hash item.key_hash) refl _ _,
    part-cons i item l l w.1 (All-found l w.2),
  )

  pub kept-staying :
      (c : Cache) (l : Elements)
      → IsSync c
      → IsPart c l
      → keep_if (λ x. not (pointed c.entries x.0)) l ≡ staying l
  kept-staying c [] s a = refl
  kept-staying c ((i, item) ∷ l) s a =
      ground (arith, pointed-in_keys c i item s a.0, kept-staying c l s a.1)

  find-staying :
      (q : Bytes) (l : Elements) → find q (staying l) ≡ (if stays q then find q l else none)
  find-staying q [] = elim (Bool-cases (stays q)) [ inl e ↦ rw e | inr e ↦ rw e ]
  find-staying q ((i, item) ∷ l) = elim (bytes_discrete item.key_hash q) [
    | yes p ↦ ground (arith, find-staying q l)
    | no p ↦ ground (arith, find-staying q l)
  ]

  lookup-keep_if :
      (q : Bytes) (m : List (Bytes × ℕ))
      → lookup bytes_discrete q (keep_if (λ p. stays p.0) m)
        ≡ (if stays q then lookup bytes_discrete q m else none)
  lookup-keep_if q [] = elim (Bool-cases (stays q)) [ inl e ↦ rw e | inr e ↦ rw e ]
  lookup-keep_if q ((h, e) ∷ m) = elim (bytes_discrete h q) [
    | yes p ↦ ground (arith, lookup-keep_if q m)
    | no p ↦ ground (arith, lookup-keep_if q m)
  ]

  lookup-staying-none :
      (i : ℕ) (l : Elements) → lookup ℕ_discrete i l ≡ none → lookup ℕ_discrete i (staying l) ≡ none
  lookup-staying-none i [] e = refl
  lookup-staying-none i ((j, item) ∷ l) e = ground (arith, lookup-staying-none i l)

  staying-IsLinked : (l : Elements) → IsLinked l → IsLinked (staying l)
  staying-IsLinked [] w = tt
  staying-IsLinked ((i, item) ∷ l) w = elim (Bool-cases (in_keys sha256 exec item.key_hash ks)) [
    | inl e ↦ rw e (staying-IsLinked l w.2)
    | inr e ↦ rw e (
      lookup-staying-none i l w.0,
      find-staying item.key_hash l ∙ rw (e, w.1),
      staying-IsLinked l w.2,
    )
  ]

  staying-IsBelow : (n : ℕ) (l : Elements) → IsBelow n l → IsBelow n (staying l)
  staying-IsBelow n [] w = tt
  staying-IsBelow n ((i, item) ∷ l) w = elim (Bool-cases (in_keys sha256 exec item.key_hash ks)) [
    | inl e ↦ rw e (staying-IsBelow n l w.1)
    | inr e ↦ rw e (w.0, staying-IsBelow n l w.1)
  ]

  length-staying : (l : Elements) → length (staying l) ≤ length l
  length-staying [] = omega arith
  length-staying ((i, item) ∷ l) = ground (arith, length-staying l)

  pub view-staying : (l : Elements) → view (staying l) ≡ keep_if (λ p. stays p.0) (view l)
  view-staying [] = refl
  view-staying ((i, item) ∷ l) = ground (arith, view-staying l)

  keep_if-Distinct :
      (m : List (Bytes × ℕ))
      → Distinct bytes_discrete m
      → Distinct bytes_discrete (keep_if (λ p. stays p.0) m)
  keep_if-Distinct [] d = tt
  keep_if-Distinct ((h, e) ∷ m) d = elim (Bool-cases (in_keys sha256 exec h ks)) [
    | inl c ↦ rw c (keep_if-Distinct m d.1)
    | inr c ↦ rw c (lookup-keep_if h m ∙ rw (c, d.0), keep_if-Distinct m d.1)
  ]

  pub cleared-IsValid :
      (c d : Cache)
      → IsValid c
      → d.max_size ≡ c.max_size
      → d.next_element ≡ c.next_element
      → d.lru ≡ staying c.lru
      → d.entries ≡ keep_if (λ p. stays p.0) c.entries
      → IsValid d
  cleared-IsValid c d v em en el ee = record {
    sync = record {
      positive = rw em v.sync.positive;
      linked = rw el (staying-IsLinked c.lru v.sync.linked);
      below =
          subst (λ n. IsBelow n d.lru) (sym en)
            (subst (IsBelow c.next_element) (sym el)
              (staying-IsBelow c.next_element c.lru v.sync.below));
      unique = rw ee (keep_if-Distinct c.entries v.sync.unique);
      agree = λ q.
          rw (ee, el, lookup-keep_if, find-staying, v.sync.agree q)
            (elim (Bool-cases (stays q)) [ inl e ↦ rw e | inr e ↦ rw e ]);
    };
    bounded = omega (arith, ap length el, length-staying c.lru, v.bounded, em);
  }
