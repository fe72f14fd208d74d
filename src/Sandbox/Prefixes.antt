-- ===== src/Sandbox/Prefixes.antt =====
-- internal/mcpserver/session_cache.go and permissions.go: the paths under a prefix.
use costwise_mcp.Prelude.{
  ◌≡◌, ◌≢◌, refl, ap, ◌∙◌, subst, inl, inr, Bool, true, false, not, ◌&&◌, ◌||◌, List, [], ◌∷◌, ◌++◌,
  Bytes, codes, bytes_eq, if◌then◌else◌, has_prefix, All, arith, Bool-cases,
}
use costwise_mcp.Sandbox.{
  Names, Server, ups, rel_names, rel_text, path_under_prefix, under_any,
  is_path_dynamically_allowed, validate_repo_path, is_empty,
}

pub or_true : (b : Bool) → (b || true) ≡ true
or_true true = refl
or_true false = refl

not-not : (b c : Bool) → (not (not b) || c) ≡ (b || c)
not-not true c = refl
not-not false c = refl

if_or : (a b c : Bool) → (if a then true else if b then true else c) ≡ (a || (b || c))
if_or true b c = refl
if_or false true c = refl
if_or false false c = refl

-- the names of the prefix, then any others
abbrev pub begins_with : Names → Names → Bool
begins_with [] path = true
begins_with (b ∷ bs) [] = false
begins_with (b ∷ bs) (t ∷ ts) = bytes_eq b t && begins_with bs ts

-- a name that is not empty and does not begin with two dots
abbrev pub IsName : Bytes → Type 0
IsName n = (n ≢ []) × (has_prefix n (codes "..") ≡ false)

-- the text of names does not begin with two dots, if the first one is a name
join-name :
    (n : Bytes) (ns : Names) → IsName n → has_prefix (rel_text (n ∷ ns)) (codes "..") ≡ false
join-name [] ns (filled, plain) = absurd (filled refl)
join-name (a ∷ []) [] (filled, plain) = plain
join-name (a ∷ []) (m ∷ ns) (filled, plain) = ground arith
join-name (a ∷ b ∷ n) [] (filled, plain) = plain
join-name (a ∷ b ∷ n) (m ∷ ns) (filled, plain) = plain

-- a path that leaves the prefix begins with two dots
join-ups : (ns : Names) → has_prefix (rel_text (codes ".." ∷ ns)) (codes "..") ≡ true
join-ups [] = refl
join-ups (n ∷ ns) = refl

dots_not_dot : (ns : Names) → bytes_eq (rel_text (codes ".." ∷ ns)) (codes ".") ≡ false
dots_not_dot [] = refl
dots_not_dot (n ∷ ns) = refl

-- The text of the relative path begins with two dots exactly where the path leaves the prefix.
pub rel_text-dots :
    (prefix path : Names)
    → All IsName path
    → has_prefix (rel_text (rel_names prefix path)) (codes "..") ≡ not (begins_with prefix path)
rel_text-dots [] [] names = refl
rel_text-dots [] (t ∷ ts) (name, names) = join-name t ts name
rel_text-dots (b ∷ bs) [] names = join-ups (ups bs)
rel_text-dots (b ∷ bs) (t ∷ ts) (name, names) = elim (Bool-cases (bytes_eq b t)) [
  | inl same ↦ rw same (rel_text-dots bs ts names)
  | inr other ↦ rw other (join-ups (ups bs ++ (t ∷ ts)))
]

rel_text-dot :
    (prefix path : Names)
    → begins_with prefix path ≡ false
    → bytes_eq (rel_text (rel_names prefix path)) (codes ".") ≡ false
rel_text-dot [] path outside = absurd (cc outside)
rel_text-dot (b ∷ bs) [] outside = dots_not_dot (ups bs)
rel_text-dot (b ∷ bs) (t ∷ ts) outside = elim (Bool-cases (bytes_eq b t)) [
  | inl same ↦
      rw same
        (rel_text-dot bs ts (subst (λ (c : Bool). (c && begins_with bs ts) ≡ false) same outside))
  | inr other ↦ rw other (dots_not_dot (ups bs ++ (t ∷ ts)))
]

-- A clean path lies under a prefix if it begins with the prefix's names.
pub path_under_prefix-begins_with :
    (prefix path : Names)
    → All IsName path
    → path_under_prefix prefix path ≡ begins_with prefix path
unfolding path_under_prefix
path_under_prefix-begins_with prefix path names = elim (Bool-cases (begins_with prefix path)) [
  | inl inside ↦
      rw (rel_text-dots prefix path names, inside)
        (or_true (bytes_eq (rel_text (rel_names prefix path)) (codes ".")))
  | inr outside ↦
      rw (rel_text-dot prefix path outside, rel_text-dots prefix path names, outside) refl
]

-- the path begins with one of the prefixes
abbrev pub begins_with_any : List Names → Names → Bool
begins_with_any [] path = false
begins_with_any (p ∷ ps) path = begins_with p path || begins_with_any ps path

under_any-begins_with :
    (ps : List Names) (path : Names) → All IsName path → under_any ps path ≡ begins_with_any ps path
under_any-begins_with [] path names = refl
under_any-begins_with (p ∷ ps) path names =
    rw (path_under_prefix-begins_with p path names)
      (ap (λ (b : Bool). begins_with p path || b) (under_any-begins_with ps path names))

dynamically-begins_with :
    (ps : List Names) (path : Names)
    → All IsName path
    → is_path_dynamically_allowed ps path ≡ begins_with_any ps path
unfolding is_path_dynamically_allowed
dynamically-begins_with [] path names = refl
dynamically-begins_with (p ∷ ps) path names = rw (rel_text-dots p path names) (
    not-not (begins_with p path) (is_path_dynamically_allowed ps path)
    ∙ ap (λ (b : Bool). begins_with p path || b) (dynamically-begins_with ps path names))

-- A path of proper names is accepted if it begins with one of the prefixes, static or dynamic, and
-- otherwise only where no prefix is set at all: then every path is accepted.
pub validate_repo_path-begins_with :
    (s : Server) (path : Names)
    → All IsName path
    → validate_repo_path s path ≡ (
        (is_empty s.allowed && is_empty s.dynamic)
        || (begins_with_any s.allowed path || begins_with_any s.dynamic path))
unfolding validate_repo_path
validate_repo_path-begins_with s path names =
    let static = under_any-begins_with s.allowed path names in
    let dynamic = dynamically-begins_with s.dynamic path names in
    rw (static, dynamic)
      (if_or (is_empty s.allowed && is_empty s.dynamic) (begins_with_any s.allowed path)
        (begins_with_any s.dynamic path))
