-- ===== src/Common/Digits.antt =====
-- A natural number is told from its decimal digits.
use Prim.Native.Nat.{ℕ, zero, suc, ◌+◌, ◌-◌, ◌*◌, ◌/◌, ◌%◌, ◌<◌}
use mathlib.Core.Path.{◌≡◌, sym, ap, ◌∙◌}
use mathlib.Core.Logic.{inl, inr}
use mathlib.Core.List.{[], ◌∷◌}
use native.Mathlib.Omega.{arith}
use rolekit.Common.Tests.{ltb, Bool-cases}
use rolekit.Common.Text.{Text, digits_from, decimal}

-- What digits stand for, after a number.
value_from : ℕ → Text → ℕ
value_from n [] = n
value_from n (c ∷ t) = value_from (n * 10 + (c - 48)) t

value_from-digits_from :
    (fuel n : ℕ) (acc : Text) → n < fuel → value_from 0 (digits_from fuel n acc) ≡ value_from n acc
unfolding digits_from value_from
value_from-digits_from zero n acc h = absurd (omega arith)
value_from-digits_from (suc fuel) n acc h = elim (Bool-cases (ltb n 10)) [
  | inl small ↦
      let one : 0 * 10 + (48 + n - 48) ≡ n = omega arith in
      rw (digits_from, small) (ap (λ m. value_from m acc) one)
  | inr large ↦
      let more = value_from-digits_from fuel (n / 10) ((48 + n % 10) ∷ acc) (ground arith) in
      let back : n / 10 * 10 + (48 + n % 10 - 48) ≡ n = omega arith in
      rw (digits_from, large) (more ∙ ap (λ m. value_from m acc) back)
]

pub decimal-injective : (m n : ℕ) → decimal m ≡ decimal n → m ≡ n
unfolding decimal value_from
decimal-injective m n h =
    let a = value_from-digits_from (suc m) m [] (omega arith) in
    let b = value_from-digits_from (suc n) n [] (omega arith) in sym a ∙ (ap (value_from 0) h ∙ b)
