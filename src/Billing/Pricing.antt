-- ===== src/Billing/Pricing.antt =====
-- The prices of one reading: how credit, debit and the forgiven volume relate.
use abr_out.Prelude.{ℕ, ◌+◌, ◌*◌, ◌^◌, ◌≤◌, ◌<◌, ◌≡◌, arith, lt→ltb}
use abr_out.Prelude.Int.{pos, ◌+ℤ◌, sub_ℕ}
use abr_out.Prelude.Rounding.{round_half_even_mono, round_half_even_near, round_half_even-scale}
use abr_out.Quota.{bytes_per_gb}
use abr_out.Models.{Fraction}
use abr_out.Billing.{gb_of, seller_credit, buyer_debit, split}
use native.Mathlib.Nat.{mul-le-mul_left, mul-le-mul_right}
use mathlib.Core.Path.{subst}

-- For the same volume and price the buyer is debited at least what the seller is credited, and the
-- larger volume is never the cheaper one. The commission is a fraction with a positive denominator.
pub seller_credit-le-buyer_debit :
    (gb gb' price : ℕ) (commission : Fraction)
    → 0 < commission.den
    → gb ≤ gb'
    → (seller_credit gb price ≤ buyer_debit gb price commission)
      × (buyer_debit gb price commission ≤ buyer_debit gb' price commission)
unfolding seller_credit buyer_debit
seller_credit-le-buyer_debit gb gb' price commission h le = (
  subst (λ (r : ℕ). r ≤ buyer_debit gb price commission)
      (round_half_even-scale (gb * price) (10 ^ 6) commission.den (omega arith) h)
      (round_half_even_mono (gb * price * commission.den) _ (10 ^ 6 * commission.den) (grind arith)
        (mul-le-mul_left (gb * price) (omega arith))),
  round_half_even_mono _ _ (10 ^ 6 * commission.den) (grind arith)
      (mul-le-mul_right (commission.den + commission.num) (mul-le-mul_right price le)),
)

-- The credit is the exact price rounded to the nearest 10^-8 dollar: it is off by half of one at
-- most, in either direction. So is the volume, at 10^-10 GB.
pub seller_credit_near :
    (delta price : ℕ)
    → let gb = gb_of delta in
      (2 * (10 ^ 6 * seller_credit gb price) ≤ 2 * (gb * price) + 10 ^ 6)
      × (2 * (gb * price) ≤ 2 * (10 ^ 6 * seller_credit gb price) + 10 ^ 6)
      × (2 * (bytes_per_gb * gb) ≤ 2 * (delta * 10 ^ 10) + bytes_per_gb)
      × (2 * (delta * 10 ^ 10) ≤ 2 * (bytes_per_gb * gb) + bytes_per_gb)
unfolding seller_credit gb_of
seller_credit_near delta price =
    let usd = round_half_even_near (gb_of delta * price) (10 ^ 6) (omega arith) in
    let gb = round_half_even_near (delta * 10 ^ 10) bytes_per_gb (omega arith) in
    (usd.0, usd.1, gb.0, gb.1)

+ℤ-sub_ℕ : (b a : ℕ) → pos b +ℤ sub_ℕ a b ≡ pos a
unfolding ◌+ℤ◌
+ℤ-sub_ℕ b a = ground arith

-- The audit split of a reading that is not zero adds up to the delta, whatever the floating-point
-- share is.
pub split-sum :
    (share : ℕ → ℕ → ℕ → ℕ) (delta up total : ℕ)
    → 0 < total
    → let (d_up, d_down) = split share delta up total in pos d_up +ℤ d_down ≡ pos delta
unfolding split
split-sum share delta up total h = rw (lt→ltb 0 total h) (+ℤ-sub_ℕ (share delta up total) delta)
