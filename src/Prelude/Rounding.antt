-- ===== src/Prelude/Rounding.antt =====
-- `Decimal.quantize` on non-negative values, as the integer nearest to the fraction n / d.
use Prim.Native.Nat.{ℕ, ◌+◌, ◌*◌, ◌/◌, ◌%◌, ◌≤◌, ◌<◌}
use mathlib.Core.Path.{◌≡◌, ap}
use mathlib.Core.Logic.{◌⊎◌, inl, inr}
use native.Mathlib.Omega.{arith}
use native.Mathlib.Nat.{div-add-mod, mod-lt, mul-le-mul_right, mul_assoc}
use native.Mathlib.Decide.{dec_lt}
use abr_out.Prelude.Tests.{ltb, lt→ltb, ◌==◌, if◌then◌else◌}

-- ROUND_HALF_EVEN, the rounding of the default context.
unfoldable pub round_half_even : ℕ → ℕ → ℕ
round_half_even n d =
    if ltb (2 * (n % d)) d
    then n / d
    else if ltb d (2 * (n % d))
    then n / d + 1
    else if (n / d) % 2 == 0
    then n / d
    else n / d + 1

-- ROUND_HALF_UP.
unfoldable pub round_half_up : ℕ → ℕ → ℕ
round_half_up n d = (2 * n + d) / (2 * d)

quotient_cases :
    (q r q' r' d : ℕ) → r' < d → d * q + r ≤ d * q' + r' → (q < q') ⊎ ((q ≡ q') × (r ≤ r'))
quotient_cases q r q' r' d h le = elim (dec_lt q q') [
  | yes p ↦ inl p
  | no p ↦ elim (dec_lt q' q) [
    | yes p' ↦ absurd (grind arith)
    | no p' ↦ let e : q ≡ q' = omega arith in inr (e, grind arith)
  ]
]

div_mod_cases : (n m d : ℕ) → 0 < d → n ≤ m → (n / d < m / d) ⊎ ((n / d ≡ m / d) × (n % d ≤ m % d))
div_mod_cases n m d h le =
    quotient_cases (n / d) (n % d) (m / d) (m % d) d (mod-lt m h)
      (omega (arith, div-add-mod n d, div-add-mod m d))

pub round_half_even_mono : (n m d : ℕ) → 0 < d → n ≤ m → round_half_even n d ≤ round_half_even m d
unfolding round_half_even
round_half_even_mono n m d h le = ground (arith, div_mod_cases n m d h le)

-- The rounded value is a nearest one.
pub round_half_even_near :
    (n d : ℕ)
    → 0 < d
    → (2 * (d * round_half_even n d) ≤ 2 * n + d) × (2 * n ≤ 2 * (d * round_half_even n d) + d)
unfolding round_half_even
round_half_even_near n d h = grind (arith, div-add-mod n d, mod-lt n h)

quotient_unique : (q r q' r' d : ℕ) → r < d → r' < d → d * q + r ≡ d * q' + r' → (q ≡ q') × (r ≡ r')
quotient_unique q r q' r' d h h' e =
    grind (
      arith,
      quotient_cases q r q' r' d h' (omega arith),
      quotient_cases q' r' q r d h (omega arith),
    )

mul-lt : (a b k : ℕ) → 0 < k → a < b → a * k < b * k
mul-lt a b k p h = grind arith

ltb-mul : (a b k : ℕ) → 0 < k → ltb (a * k) (b * k) ≡ ltb a b
ltb-mul a b k p = elim (dec_lt a b) [
  | yes h ↦ rw (lt→ltb a b h) (lt→ltb (a * k) (b * k) (mul-lt a b k p h))
  | no h ↦ ground (arith, mul-le-mul_right {m = b} {n = a} k (omega arith))
]

div_mod-scale :
    (n d k : ℕ) → 0 < d → 0 < k → (n * k / (d * k) ≡ n / d) × (n * k % (d * k) ≡ n % d * k)
div_mod-scale n d k h p =
    quotient_unique (n * k / (d * k)) (n * k % (d * k)) (n / d) (n % d * k) (d * k)
      (mod-lt (n * k) (grind arith)) (mul-lt (n % d) d k p (mod-lt n h))
      (omega (arith, div-add-mod (n * k) (d * k), ap (λ (t : ℕ). t * k) (div-add-mod n d)))

-- A fraction may be extended.
pub round_half_even-scale :
    (n d k : ℕ) → 0 < d → 0 < k → round_half_even (n * k) (d * k) ≡ round_half_even n d
unfolding round_half_even
round_half_even-scale n d k h p =
    let s = div_mod-scale n d k h p in
    ground
      (arith, s, ltb-mul (2 * (n % d)) d k p, ltb-mul d (2 * (n % d)) k p, mul_assoc 2 (n % d) k)
