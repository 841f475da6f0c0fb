-- ===== src/Button/Steps.antt =====
-- Gain and attenuation presses stay in range and reach its ends.
use esp32_streamline.Prelude.{
  ℕ, zero, suc, ◌+◌, ◌*◌, ◌/◌, ◌≤◌, ◌≡◌, Bool, true, arith, min, if◌then◌else◌,
}
use esp32_streamline.Button.{stepped_gain, stepped_attenuation, gain_steps}

-- Within a range of at most 255, a press of either kind from a value in range stays in range, and a gain
-- press moves the right way.
steps_bounds :
    (limit current : ℕ) (up : Bool)
    → limit ≤ 255
    → current ≤ limit
    → (stepped_gain limit current up ≤ limit)
      × (stepped_attenuation limit current up ≤ limit)
      × (if up then current else stepped_gain limit current up)
        ≤ (if up then stepped_gain limit current up else current)
unfolding stepped_gain stepped_attenuation
steps_bounds limit current up l c = ground arith

presses : ℕ → ℕ → Bool → ℕ → ℕ
presses zero limit up current = current
presses (suc n) limit up current = presses n limit up (stepped_gain limit current up)

-- `n` presses up climb `n` eighths of the range, rounded up, or reach the top.
presses_climb :
    (n limit current low : ℕ)
    → limit ≤ 255
    → low ≤ current
    → current ≤ limit
    → min (low + n * ((limit + 7) / 8)) limit ≤ presses n limit true current
unfolding presses stepped_gain
presses_climb zero limit current low l c t = omega arith
presses_climb (suc n) limit current low l c t = ground (
  arith,
  presses_climb n limit (stepped_gain limit current true) (min (low + (limit + 7) / 8) limit) l,
)

presses-le :
    (n limit current : ℕ) → limit ≤ 255 → current ≤ limit → presses n limit true current ≤ limit
unfolding presses stepped_gain
presses-le zero limit current l c = c
presses-le (suc n) limit current l c =
    presses-le n limit (stepped_gain limit current true) l (ground arith)

-- From wherever the gain stands in a range of at most 255, eight presses up reach its maximum.
eight_presses_reach_max :
    (limit current : ℕ)
    → limit ≤ 255
    → current ≤ limit
    → presses gain_steps limit true current ≡ limit
eight_presses_reach_max limit current l c =
    omega (
      arith,
      presses_climb 8 limit current current l (omega arith) c,
      presses-le 8 limit current l c,
    )

-- Within a range of at most 255, from a value in range: a press of either kind stays in range, a gain press
-- moves the right way, and eight gain presses up reach the maximum.
stepped_gain_lem :
    (limit current : ℕ) (up : Bool)
    → limit ≤ 255
    → current ≤ limit
    → (stepped_gain limit current up ≤ limit)
      × (stepped_attenuation limit current up ≤ limit)
      × ((if up then current else stepped_gain limit current up)
          ≤ (if up then stepped_gain limit current up else current))
      × (presses gain_steps limit true current ≡ limit)
stepped_gain_lem limit current up l c =
    let (gain, attenuation, direction) = steps_bounds limit current up l c in
    (gain, attenuation, direction, eight_presses_reach_max limit current l c)
