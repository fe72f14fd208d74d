-- ===== src/Cache/Keys.antt =====
-- internal/cache/cache.go: the text that identifies a cache key.
use mathlib.Core.List.{append_assoc}
use costwise_mcp.Prelude.{
  suc, ◌≡◌, ◌≢◌, refl, sym, ◌∙◌, [], ◌∷◌, ◌++◌, Bytes, All, arith, ℤ, pos, negsuc, signed,
  signed-injective, decimal-IsDigit, IsDigit,
}
use costwise_mcp.Cache.{CacheKey, raw}

-- no byte of the text is the separator
abbrev pub LacksBar : Bytes → Type 0
LacksBar = All (λ c. c ≢ b'|')

-- the fields that the server fills in itself hold no separator; the query may
pub record IsPlain (k : CacheKey) : Type 0 where
  pub repo_hash : LacksBar k.repo_hash
  pub retriever : LacksBar k.retriever
  pub context_level : LacksBar k.context_level

-- a text up to its first separator
first_bar :
    (a b x y : Bytes) → LacksBar a → LacksBar b → a ++ b'|' ∷ x ≡ b ++ b'|' ∷ y → (a ≡ b) × (x ≡ y)
first_bar [] [] x y la lb e = (refl, cc)
first_bar [] (d ∷ b) x y la lb e = absurd (lb.0 (cc))
first_bar (c ∷ a) [] x y la lb e = absurd (la.0 (cc))
first_bar (c ∷ a) (d ∷ b) x y la lb e =
    let (p, q) = first_bar a b x y la.1 lb.1 (cc) in let h : c ≡ d = cc in (cc, q)

no_bar : (b y x : Bytes) → LacksBar x → x ≢ b ++ b'|' ∷ y
no_bar [] y [] l e = cc
no_bar [] y (c ∷ x) l e = l.0 (cc)
no_bar (d ∷ b) y [] l e = cc
no_bar (d ∷ b) y (c ∷ x) l e = no_bar b y x l.1 (cc)

-- a text from its last separator
last_bar :
    (a b x y : Bytes) → LacksBar x → LacksBar y → a ++ b'|' ∷ x ≡ b ++ b'|' ∷ y → (a ≡ b) × (x ≡ y)
last_bar [] [] x y lx ly e = (refl, cc)
last_bar [] (d ∷ b) x y lx ly e = absurd (no_bar b y x lx (cc))
last_bar (c ∷ a) [] x y lx ly e = absurd (no_bar a x y ly (cc))
last_bar (c ∷ a) (d ∷ b) x y lx ly e =
    let (p, q) = last_bar a b x y lx ly (cc) in let h : c ≡ d = cc in (cc, q)

digits_LacksBar : (s : Bytes) → All IsDigit s → LacksBar s
digits_LacksBar [] h = tt
digits_LacksBar (c ∷ s) h = (λ e. omega (arith, h.0.1), digits_LacksBar s h.1)

signed-LacksBar : (n : ℤ) → LacksBar (signed n)
signed-LacksBar (pos n) = digits_LacksBar _ (decimal-IsDigit n)
signed-LacksBar (negsuc n) = (λ e. omega arith, digits_LacksBar _ (decimal-IsDigit (suc n)))

-- the text behind the repository, with its separators grouped from the left
rest : CacheKey → Bytes
rest k =
    k.query
    ++ (b'|' ∷ (k.retriever ++ (b'|' ∷ (k.context_level ++ (b'|' ∷ signed k.token_budget)))))

grouped :
    (q r l s : Bytes)
    → q ++ (b'|' ∷ (r ++ (b'|' ∷ (l ++ (b'|' ∷ s))))) ≡ ((q ++ b'|' ∷ r) ++ b'|' ∷ l) ++ b'|' ∷ s
grouped q r l s = simp append_assoc

key_eq :
    (j k : CacheKey)
    → j.repo_hash ≡ k.repo_hash
    → j.query ≡ k.query
    → j.retriever ≡ k.retriever
    → j.context_level ≡ k.context_level
    → j.token_budget ≡ k.token_budget
    → j ≡ k
key_eq j k a b c d e = λ i. record {
  repo_hash = a i;
  query = b i;
  retriever = c i;
  context_level = d i;
  token_budget = e i;
}

-- Two keys are digested from the same text only if they are equal, where the repository's hash,
-- the retriever and the context level hold no separator. The query may hold any bytes.
pub raw-injective : (j k : CacheKey) → IsPlain j → IsPlain k → raw j ≡ raw k → j ≡ k
unfolding raw
raw-injective j k p q e =
    let (repo, tail) = first_bar j.repo_hash k.repo_hash _ _ p.repo_hash q.repo_hash e in
    let (front, budget) =
      last_bar ((j.query ++ b'|' ∷ j.retriever) ++ b'|' ∷ j.context_level)
        ((k.query ++ b'|' ∷ k.retriever) ++ b'|' ∷ k.context_level) (signed j.token_budget)
        (signed k.token_budget) (signed-LacksBar j.token_budget) (signed-LacksBar k.token_budget)
        (sym (grouped j.query j.retriever j.context_level (signed j.token_budget))
          ∙ (tail ∙ grouped k.query k.retriever k.context_level (signed k.token_budget))) in
    let (pair, level) = last_bar _ _ _ _ p.context_level q.context_level front in
    let (query, retriever) = last_bar _ _ _ _ p.retriever q.retriever pair in
    key_eq j k repo query retriever level (signed-injective j.token_budget k.token_budget budget)
