-- ===== src/Counter/Laws.antt =====
-- What include/counter.h promises: a sequence number counts modulo 2^32, and a checked counter
-- stays in its range.
use sstoraged.Common.{ℕ, zero, suc, ◌+◌, ◌-◌, ◌%◌, ◌^◌, ◌≤◌, ◌<◌, ◌≡◌, true, arith}
use sstoraged.Counter.{next_sn, advance_sn, increment, decrement}

pub next_sn-lt : (c : ℕ) → c < 2 ^ 32 → (next_sn c).1 < 2 ^ 32
unfolding next_sn
next_sn-lt c h = ground arith

pub next_sn_lem : (c : ℕ) → c < 2 ^ 32 → (next_sn c).1 ≡ (c + 1) % 2 ^ 32
unfolding next_sn
next_sn_lem c h = ground arith

-- A sequence counter below 2^32 that is called n times has counted n modulo 2^32.
pub advance_sn_lem : (n c : ℕ) → c < 2 ^ 32 → advance_sn n c ≡ (c + n) % 2 ^ 32
unfolding advance_sn
advance_sn_lem zero c h = omega arith
advance_sn_lem (suc n) c h =
    omega (arith, advance_sn_lem n (next_sn c).1 (next_sn-lt c h), next_sn_lem c h)

-- A checked counter that starts within its bounds stays within them on both operations, whether
-- the call returns or throws; a call that returns has counted by one, and an increment that is
-- followed by a decrement restores the counter.
pub increment-decrement :
    (lo hi c : ℕ)
    → lo ≤ c
    → c ≤ hi
    → hi < 2 ^ 64
    → ((increment hi c).0 ≤ hi)
      × (lo ≤ (decrement lo c).0)
      × (c < hi → (increment hi c ≡ (c + 1, true)) × (decrement lo (increment hi c).0 ≡ (c, true)))
      × (lo < c → (decrement lo c ≡ (c - 1, true)) × (increment hi (decrement lo c).0 ≡ (c, true)))
unfolding increment decrement
increment-decrement lo hi c a b w = ground arith
