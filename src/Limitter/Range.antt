-- ===== src/Limitter/Range.antt =====
-- The range of LinearLimitter::getY: where the slope keeps it within 1 and CMD_QUEUE_SIZE, and where
-- the rounded slope takes it below zero.
use sstoraged.Common.{
  ℕ, ◌+◌, ◌-◌, ◌*◌, ◌/◌, ◌^◌, ◌≤◌, ◌<◌, ◌≡◌, refl, inl, inr, false, some, arith, sub64, sub64_small,
  Bool-cases, ltb, leb, ◌==◌,
}
use sstoraged.Limitter.{make_limitter, get_y, cmd_queue_size}

-- The limits fit a size_t, the slope is not zero, and 143 steps of it reach over the distance.
pub record IsSpread (x1 x2 : ℕ) : Type 0 where
  pub fits : x2 < 2 ^ 64
  pub step : 142 ≤ x2 - x1
  pub reach : x2 - x1 ≤ 143 * ((x2 - x1) / 142)

-- A pool between the limits takes at most 142 steps.
steps-le : (x1 x2 x : ℕ) → IsSpread x1 x2 → x1 ≤ x → x < x2 → sub64 x x1 / (sub64 x2 x1 / 142) ≤ 142
steps-le x1 x2 x s h k =
    rw (sub64_small x x1 (omega arith) h, sub64_small x2 x1 s.fits (omega arith))
      (quotient-le (x - x1) (x2 - x1) ((x2 - x1) / 142) (omega arith) (omega arith) s.reach)
  where
    quotient-le : (n d a : ℕ) → 0 < a → n < d → d ≤ 143 * a → n / a ≤ 142
    quotient-le n d a p h k = grind arith

-- Where the limits are spread, getY answers for every pool size, with a queue size from 1 to
-- CMD_QUEUE_SIZE: all of it below the soft limit, 1 from the hard limit on, and less by one for each
-- step of the distance between the limits otherwise.
pub get_y_range :
    (x1 x2 x : ℕ)
    → IsSpread x1 x2
    → (y : ℕ) × (get_y (make_limitter x1 x2) x ≡ some y)
      × (1 ≤ y)
      × (y ≤ cmd_queue_size)
      × (x < x1 → y ≡ cmd_queue_size)
      × (x2 ≤ x → y ≡ 1)
      × (x1 ≤ x → x < x2 → y ≡ cmd_queue_size - (x - x1) / ((x2 - x1) / (cmd_queue_size - 1)))
unfolding get_y
get_y_range x1 x2 x s = elim (Bool-cases (ltb x x1)) [
  | inl below ↦ (
    cmd_queue_size,
    rw below,
    omega arith,
    omega arith,
    λ _. refl,
    λ h. ground arith,
    λ h k. absurd (ground (arith, below, h)),
  )
  | inr soft ↦ elim (Bool-cases (leb x2 x)) [
    | inl above ↦ (
      1,
      rw (soft, above),
      omega arith,
      omega arith,
      λ h. ground arith,
      λ _. refl,
      λ h k. absurd (ground (arith, above, k)),
    )
    | inr hard ↦
        let q = steps-le x1 x2 x s (ground arith) (ground arith) in
        let nz : ((sub64 x2 x1 / 142) == 0) ≡ false = ground (arith, s.fits, s.step) in
        (
          sub64 cmd_queue_size (sub64 x x1 / (sub64 x2 x1 / 142)),
          rw (soft, hard, nz),
          omega arith,
          omega arith,
          λ h. ground arith,
          λ h. ground arith,
          λ h k.
              let here : sub64 x x1 ≡ x - x1 = omega (arith, h, k, s.fits) in
              let width : sub64 x2 x1 ≡ x2 - x1 = omega (arith, h, k, s.fits) in
              let bound : (x - x1) / ((x2 - x1) / 142) ≤ 142 = rw (← here, ← width) q in
              rw (here, width) (omega (arith, bound)),
        )
  ]
]

-- A pool that is more than 143 steps past the soft limit, and below the hard one, gets a queue size
-- that has wrapped round zero: at least 2^63.
pub get_y_wraps :
    (x1 x2 x : ℕ)
    → x2 < 2 ^ 63
    → 142 ≤ x2 - x1
    → x < x2
    → x1 + 144 * ((x2 - x1) / 142) ≤ x
    → (y : ℕ) × (get_y (make_limitter x1 x2) x ≡ some y) × (2 ^ 63 ≤ y)
unfolding get_y
get_y_wraps x1 x2 x w d h far =
    let soft : ltb x x1 ≡ false = ground arith in
    let hard : leb x2 x ≡ false = ground arith in
    let nz : ((sub64 x2 x1 / 142) == 0) ≡ false = ground arith in
    let e : sub64 x x1 / (sub64 x2 x1 / 142) ≡ (x - x1) / ((x2 - x1) / 142) = rw (
      sub64_small x x1 (omega arith) (omega arith),
      sub64_small x2 x1 (omega arith) (omega arith),
    ) in
    let q = steps (x - x1) ((x2 - x1) / 142) (omega arith) (omega arith) in
    (
      sub64 cmd_queue_size (sub64 x x1 / (sub64 x2 x1 / 142)),
      rw (soft, hard, nz),
      rw e (omega (arith, q)),
    )
  where
    steps : (n a : ℕ) → 0 < a → 144 * a ≤ n → (144 ≤ n / a) × (n / a ≤ n)
    steps n a p k = grind arith
