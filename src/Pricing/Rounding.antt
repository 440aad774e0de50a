-- ===== src/Pricing/Rounding.antt =====
-- The money arithmetic of src/glip/pricing/service.py: rounding, subtotals, totals and fees.
use arquitech_glip_premium_b.Prelude.{ℕ, ◌+◌, ◌*◌, ◌≤◌, ◌<◌, ◌≡◌, arith}
use arquitech_glip_premium_b.Pricing.Gate.{round_half_up}

-- For a positive divisor, the rounded quotient is within one half of the exact one, and the half
-- rounds up.
pub round_half_up_bounds :
    (n d : ℕ)
    → 0 < d
    → (2 * (d * round_half_up n d) ≤ 2 * n + d) × (2 * n + d < 2 * (d * round_half_up n d) + 2 * d)
unfolding round_half_up
round_half_up_bounds n d h = grind arith

pub round_half_up_mono : (n m d : ℕ) → n ≤ m → 0 < d → round_half_up n d ≤ round_half_up m d
unfolding round_half_up
round_half_up_mono n m d h p = grind arith

pub round_half_up_exact : (n d : ℕ) → 0 < d → round_half_up (n * d) d ≡ n
unfolding round_half_up
round_half_up_exact n d p = grind arith

-- A scaling by at least one never lowers a rounded amount.
pub round_half_up_grows : (n a d : ℕ) → 0 < d → d ≤ a → n ≤ round_half_up (n * a) d
round_half_up_grows n a d p h =
    let more : n * d ≤ n * a = grind arith in
    let step = round_half_up_mono (n * d) (n * a) d more p in
    let exact = round_half_up_exact n d p in omega arith
