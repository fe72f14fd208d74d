-- ===== src/Prelude/Text.antt =====
-- Go strings as their bytes. Case mapping and white space are those of ASCII text.
use Prim.Native.Nat.{ℕ, ◌+◌, ◌-◌, ◌/◌, ◌%◌}
use Prim.Native.Char.{code}
use Prim.Native.String.{String}
use mathlib.Core.Path.{◌≡◌, refl, ap}
use mathlib.Core.Logic.{◌↔◌}
use mathlib.Core.Bool.{Bool, true, false, ◌&&◌, ◌||◌, decide}
use mathlib.Core.List.{List, [], ◌∷◌, ◌++◌, map}
use native.Mathlib.Omega.{arith}
use costwise_mcp.Prelude.Tests.{ltb, leb, ◌==◌, if◌then◌else◌}

abbrev pub Bytes : Type 0
Bytes = List ℕ

-- the bytes of an ASCII literal
abbrev pub codes : String → Bytes
codes String.[] = []
codes (String.◌∷◌ c s) = code c ∷ codes s

-- `a == b`
abbrev pub bytes_eq : Bytes → Bytes → Bool
bytes_eq [] [] = true
bytes_eq (a ∷ s) (b ∷ t) = a == b && bytes_eq s t
bytes_eq _ _ = false

pub bytes_eq_sound : (s t : Bytes) → bytes_eq s t ≡ true → s ≡ t
bytes_eq_sound [] [] h = refl
bytes_eq_sound [] (b ∷ t) h = cc
bytes_eq_sound (a ∷ s) [] h = cc
bytes_eq_sound (a ∷ s) (b ∷ t) h = ground (arith, bytes_eq_sound s t)

pub bytes_eq_self : (s : Bytes) → bytes_eq s s ≡ true
bytes_eq_self [] = refl
bytes_eq_self (a ∷ s) = ground (arith, bytes_eq_self s)

pub bytes_eq_iff : (s t : Bytes) → (bytes_eq s t ≡ true) ↔ (s ≡ t)
bytes_eq_iff s t = (bytes_eq_sound s t, λ e. rw e (bytes_eq_self t))

-- Equality of Go strings, as a decision for maps.
bytes_decide : (s t : Bytes) (b : Bool) → bytes_eq s t ≡ b → Dec (s ≡ t)
bytes_decide s t true e = yes (bytes_eq_sound s t e)
bytes_decide s t false e = no (λ p. cc (e, bytes_eq_self s, ap (bytes_eq s) p))

unfoldable pub bytes_discrete : Discrete Bytes
unfolding bytes_decide
bytes_discrete s t = bytes_decide s t (bytes_eq s t) refl

-- `strings.HasPrefix(s, p)`
abbrev pub has_prefix : Bytes → Bytes → Bool
has_prefix s [] = true
has_prefix [] (b ∷ p) = false
has_prefix (a ∷ s) (b ∷ p) = a == b && has_prefix s p

-- `strings.HasSuffix(s, suffix)`
abbrev pub has_suffix : Bytes → Bytes → Bool
has_suffix [] suffix = bytes_eq [] suffix
has_suffix (c ∷ s) suffix = bytes_eq (c ∷ s) suffix || has_suffix s suffix

-- `strings.Contains(s, p)`
abbrev pub contains : Bytes → Bytes → Bool
contains [] p = has_prefix [] p
contains (a ∷ s) p = has_prefix (a ∷ s) p || contains s p

-- `unicode.IsSpace` on ASCII
abbrev pub is_space : ℕ → Bool
is_space c = c == 32 || (leb 9 c && leb c 13)

abbrev pub lower_byte : ℕ → ℕ
lower_byte c = if leb b'A' c && leb c b'Z' then c + 32 else c

-- `strings.ToLower`
abbrev pub to_lower : Bytes → Bytes
to_lower = map lower_byte

abbrev pub trim_left : Bytes → Bytes
trim_left [] = []
trim_left (c ∷ s) = let rest = trim_left s in if is_space c then rest else c ∷ s

-- drops the white space at the end
abbrev pub trim_right : Bytes → Bytes
trim_right [] = []
trim_right (c ∷ s) = elim (trim_right s) [
  | [] ↦ if is_space c then [] else c ∷ []
  | d ∷ r ↦ c ∷ d ∷ r
]

-- `strings.TrimSpace`
abbrev pub trim_space : Bytes → Bytes
trim_space s = trim_right (trim_left s)

-- `strings.Split(s, sep)` at one byte: the current part grows at its end
abbrev split_from : ℕ → Bytes → Bytes → List Bytes
split_from sep [] cur = cur ∷ []
split_from sep (c ∷ s) cur = elim (c == sep) [
  | true ↦ cur ∷ split_from sep s []
  | false ↦ split_from sep s (cur ++ c ∷ [])
]

abbrev pub split : Bytes → ℕ → List Bytes
split s sep = split_from sep s []

-- the non-empty runs of bytes that fail a test (`strings.FieldsFunc`)
abbrev pub fields_from : (ℕ → Bool) → Bytes → Bytes → List Bytes
fields_from cut [] [] = []
fields_from cut [] (d ∷ cur) = (d ∷ cur) ∷ []
fields_from cut (c ∷ s) [] = elim (cut c) [
  | true ↦ fields_from cut s []
  | false ↦ fields_from cut s (c ∷ [])
]
fields_from cut (c ∷ s) (d ∷ cur) = elim (cut c) [
  | true ↦ (d ∷ cur) ∷ fields_from cut s []
  | false ↦ fields_from cut s ((d ∷ cur) ++ c ∷ [])
]

abbrev pub fields_func : (ℕ → Bool) → Bytes → List Bytes
fields_func cut s = fields_from cut s []

-- `strings.Fields`
abbrev pub fields : Bytes → List Bytes
fields s = fields_func is_space s

-- `strings.Join`
abbrev pub join : List Bytes → Bytes → Bytes
join [] sep = []
join (p ∷ []) sep = p
join (p ∷ q ∷ ps) sep = p ++ (sep ++ join (q ∷ ps) sep)

-- every line with its line break
abbrev pub unlines : List Bytes → Bytes
unlines [] = []
unlines (line ∷ lines) = (line ++ b'\n' ∷ []) ++ unlines lines

abbrev pub hex_digit : ℕ → ℕ
hex_digit n = if ltb n 10 then b'0' + n else b'a' + (n - 10)

-- `hex.EncodeToString`
abbrev pub hex : Bytes → Bytes
hex [] = []
hex (b ∷ s) = hex_digit (b / 16) ∷ hex_digit (b % 16) ∷ hex s

text_samples :
    (split (codes "a,,b") b',' ≡ codes "a" ∷ [] ∷ codes "b" ∷ [])
    × (fields (codes "  to be  ") ≡ codes "to" ∷ codes "be" ∷ [])
    × (trim_space (codes "  to be  ") ≡ codes "to be")
    × (contains (codes "costwise") (codes "twi") ≡ true)
    × (to_lower (codes "LRU-7") ≡ codes "lru-7")
text_samples = (refl, refl, refl, refl, refl)

discrete_sample : decide (bytes_discrete (codes "a") (codes "b")) ≡ false
unfolding bytes_discrete decide
discrete_sample = refl
