-- ===== src/Stash/Handles.antt =====
-- internal/stash/stash.go: the handles, which name files.
use costwise_mcp.Prelude.{
  ℕ, ◌/◌, ◌%◌, ◌<◌, ◌≡◌, ◌≢◌, refl, ap, sym, ◌∙◌, inl, inr, Bool, true, false, ◌&&◌, [], ◌∷◌, ◌++◌,
  Bytes, codes, hex, hex_digit, if◌then◌else◌, is_space, trim_left, trim_right, trim_space,
  to_lower, lower_byte, has_prefix, subst, Bool-cases, All, length, take, take-append_exact,
  length-append, arith,
}
use costwise_mcp.Stash.{
  normalize_handle, is_hex_digit, all_hex, is_hex_handle, blob_name, manifest_name,
}

hex_digit_hex : (n : ℕ) → n < 16 → is_hex_digit (hex_digit n) ≡ true
hex_digit_hex n h = ground arith

pub hex-all_hex : (s : Bytes) → All (λ (b : ℕ). b < 256) s → all_hex (hex s) ≡ true
hex-all_hex [] h = refl
hex-all_hex (b ∷ s) (lt, h) =
    rw (hex_digit_hex (b / 16) (omega (arith, lt)), hex_digit_hex (b % 16) (omega arith))
      (hex-all_hex s h)

hex_digit_space : (c : ℕ) → is_hex_digit c ≡ true → is_space c ≡ false
hex_digit_space c h = ground arith

hex_digit_lower : (c : ℕ) → is_hex_digit c ≡ true → lower_byte c ≡ c
hex_digit_lower c h = ground arith

hex_digit_plain :
    (c : ℕ) → is_hex_digit c ≡ true → (c ≢ b'/') × (c ≢ b'.') × (c ≢ b'm') × (c ≢ b's')
hex_digit_plain c h = ground arith

all_hex-head :
    (c : ℕ) (h : Bytes) → all_hex (c ∷ h) ≡ true → (is_hex_digit c ≡ true) × (all_hex h ≡ true)
all_hex-head c h e = elim (Bool-cases (is_hex_digit c)) [
  | inl yes_hex ↦ (yes_hex, subst (λ (b : Bool). (b && all_hex h) ≡ true) yes_hex e)
  | inr no_hex ↦ absurd (cc (subst (λ (b : Bool). (b && all_hex h) ≡ true) no_hex e))
]

trim_left_hex : (h : Bytes) → all_hex h ≡ true → trim_left h ≡ h
trim_left_hex [] e = refl
trim_left_hex (c ∷ h) e = rw (hex_digit_space c (all_hex-head c h e).0) refl

trim_right_hex : (h : Bytes) → all_hex h ≡ true → trim_right h ≡ h
trim_right_hex [] e = refl
trim_right_hex (c ∷ []) e = rw (hex_digit_space c (all_hex-head c [] e).0) refl
trim_right_hex (c ∷ d ∷ h) e =
    let rest = trim_right_hex (d ∷ h) (all_hex-head c (d ∷ h) e).1 in
    ap (λ (t : Bytes). elim t [ [] ↦ (if is_space c then [] else c ∷ []) | x ∷ r ↦ c ∷ x ∷ r ]) rest

trim_space_hex : (h : Bytes) → all_hex h ≡ true → trim_space h ≡ h
trim_space_hex h e = ap trim_right (trim_left_hex h e) ∙ trim_right_hex h e

to_lower_hex : (h : Bytes) → all_hex h ≡ true → to_lower h ≡ h
to_lower_hex [] e = refl
to_lower_hex (c ∷ h) e =
    let (first, rest) = all_hex-head c h e in
    rw (hex_digit_lower c first) (ap (◌∷◌ c) (to_lower_hex h rest))

not_scheme : (h rest : Bytes) → all_hex h ≡ true → has_prefix h (b's' ∷ rest) ≡ false
not_scheme [] rest e = refl
not_scheme (c ∷ h) rest e =
    let (_, _, _, apart) = hex_digit_plain c (all_hex-head c h e).0 in ground arith

-- A handle that `Store` makes is normal.
pub normalize_handle_hex : (h : Bytes) → all_hex h ≡ true → normalize_handle h ≡ h
unfolding normalize_handle
normalize_handle_hex h e =
    rw
      (
        trim_space_hex h e,
        not_scheme h (codes "tash://") e,
        not_scheme h (codes "tash:") e,
        trim_space_hex h e,
      )
      (to_lower_hex h e)

pub all_hex-plain : (h : Bytes) → all_hex h ≡ true → All (λ (c : ℕ). (c ≢ b'/') × (c ≢ b'.')) h
all_hex-plain [] e = tt
all_hex-plain (c ∷ h) e =
    let (first, rest) = all_hex-head c h e in
    let plain = hex_digit_plain c first in ((plain.0, plain.1), all_hex-plain h rest)

append-cancel : (s t u : Bytes) → s ++ u ≡ t ++ u → s ≡ t
append-cancel s t u e =
    let size : length s ≡ length t =
      omega (arith, length-append s u, length-append t u, ap (λ (v : Bytes). length v) e) in
    sym (take-append_exact (length s) s u refl)
    ∙ (ap (take (length s)) e ∙ take-append_exact (length s) t u (sym size))

pub blob_name-injective : (h k : Bytes) → blob_name h ≡ blob_name k → h ≡ k
blob_name-injective h k e = append-cancel h k (codes ".txt") e

pub blob_name-manifest : (h : Bytes) → is_hex_handle h ≡ true → blob_name h ≢ manifest_name
blob_name-manifest [] e same = cc
blob_name-manifest (c ∷ h) e same =
    (hex_digit_plain c (all_hex-head c h e).0).2
      (ap (λ (s : Bytes). elim s [ [] ↦ c | d ∷ r ↦ d ]) same)
