-- ===== src/Prelude/Decimal.antt =====
-- `fmt.Sprintf("%d", n)`, with the proof that no two numbers are printed alike.
use Prim.Native.Nat.{ℕ, zero, suc, ◌+◌, ◌-◌, ◌*◌, ◌/◌, ◌%◌, ◌≤◌, ◌<◌}
use mathlib.Core.Path.{◌≡◌, refl, ap, sym, ◌∙◌}
use mathlib.Core.Logic.{◌≢◌, inl, inr}
use mathlib.Core.List.{[], ◌∷◌}
use native.Mathlib.Omega.{arith}
use costwise_mcp.Prelude.Tests.{ltb, if◌then◌else◌, ℤ, pos, negsuc, Bool-cases}
use costwise_mcp.Prelude.Lists.{All}
use costwise_mcp.Prelude.Text.{Bytes, codes}

-- `fmt.Sprintf("%d", n)`: the digits on fuel; `suc n` rounds are enough.
digits_from : ℕ → ℕ → Bytes → Bytes
digits_from zero n out = out
digits_from (suc f) n out =
    let out' = (b'0' + n % 10) ∷ out in
    let rest = digits_from f (n / 10) out' in if ltb n 10 then out' else rest

unfoldable pub decimal : ℕ → Bytes
unfolding digits_from
decimal n = digits_from (suc n) n []

-- `%d` of an `int`
abbrev pub signed : ℤ → Bytes
signed (pos n) = decimal n
signed (negsuc n) = b'-' ∷ decimal (suc n)

decimal_samples : (decimal 0 ≡ codes "0") × (decimal 1207 ≡ codes "1207")
unfolding decimal
decimal_samples = (refl, refl)

-- the number that a text of digits stands for, behind `acc`
value_from : ℕ → Bytes → ℕ
value_from acc [] = acc
value_from acc (c ∷ s) = value_from (acc * 10 + (c - b'0')) s

value_from-digits_from :
    (f n : ℕ) (out : Bytes) → n < f → value_from 0 (digits_from f n out) ≡ value_from n out
unfolding digits_from value_from
value_from-digits_from zero n out h = absurd (omega arith)
value_from-digits_from (suc f) n out h = elim (Bool-cases (ltb n 10)) [
  | inl last ↦ rw last (ap (λ (k : ℕ). value_from k out) (ground arith))
  | inr more ↦ rw more (
      value_from-digits_from f (n / 10) ((b'0' + n % 10) ∷ out) (ground arith)
      ∙ ap (λ (k : ℕ). value_from k out) (omega arith))
]

value-decimal : (n : ℕ) → value_from 0 (decimal n) ≡ n
unfolding decimal value_from
value-decimal n = value_from-digits_from (suc n) n [] (omega arith)

pub decimal-injective : (m n : ℕ) → decimal m ≡ decimal n → m ≡ n
decimal-injective m n e = sym (value-decimal m) ∙ (ap (value_from 0) e ∙ value-decimal n)

abbrev pub IsDigit : ℕ → Type 0
IsDigit c = (b'0' ≤ c) × (c ≤ b'9')

digits_from-IsDigit : (f n : ℕ) (out : Bytes) → All IsDigit out → All IsDigit (digits_from f n out)
unfolding digits_from
digits_from-IsDigit zero n out h = h
digits_from-IsDigit (suc f) n out h = elim (Bool-cases (ltb n 10)) [
  | inl last ↦ rw last ((omega arith, omega arith), h)
  | inr more ↦
      rw more
        (digits_from-IsDigit f (n / 10) ((b'0' + n % 10) ∷ out) ((omega arith, omega arith), h))
]

pub decimal-IsDigit : (n : ℕ) → All IsDigit (decimal n)
unfolding decimal
decimal-IsDigit n = digits_from-IsDigit (suc n) n [] tt

not_minus : (s : Bytes) {t : Bytes} → All IsDigit s → s ≢ b'-' ∷ t
not_minus [] h e = cc
not_minus (c ∷ s) {t} h e = let first : c ≡ b'-' = cc in omega (arith, first, h.0.0)

pub signed-injective : (m n : ℤ) → signed m ≡ signed n → m ≡ n
signed-injective (pos m) (pos n) e = ap pos (decimal-injective m n e)
signed-injective (negsuc m) (negsuc n) e =
    let t : decimal (suc m) ≡ decimal (suc n) = cc in
    let s : suc m ≡ suc n = decimal-injective (suc m) (suc n) t in ap negsuc (omega arith)
signed-injective (pos m) (negsuc n) e = absurd (not_minus (decimal m) (decimal-IsDigit m) e)
signed-injective (negsuc m) (pos n) e = absurd (not_minus (decimal n) (decimal-IsDigit n) (sym e))
