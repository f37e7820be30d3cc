-- ===== src/Counter.antt =====
-- include/counter.h: the sequence counter behind CmdSN, StatSN, DataSN and R2TSN, and the checked
-- counter of the buffer pool.
pub mod Laws
use sstoraged.Common.{
  ℕ, zero, suc, ◌+◌, ◌-◌, ◌%◌, ◌^◌, Bool, true, false, leb, if◌then◌else◌, Option, none, some,
}

-- `IncrementalCounter<uint32_t, MIN, MAX>::operator()`: the value returned, and the counter left.
-- `counter++` on a uint32_t wraps.
pub next : ℕ → ℕ → ℕ → ℕ × ℕ
next lo hi counter = (counter, if leb hi counter then lo else (counter + 1) % 2 ^ 32)

-- `SequenceCounter` is `IncrementalCounter<uint32_t, 0, ULONG_MAX>`; ULONG_MAX becomes 2^32 - 1
-- where it is converted to uint32_t.
abbrev pub sn_max : ℕ
sn_max = 2 ^ 32 - 1

unfoldable pub next_sn : ℕ → ℕ × ℕ
unfolding next
next_sn counter = next 0 sn_max counter

-- n calls of a sequence counter: the counter that they leave.
pub advance_sn : ℕ → ℕ → ℕ
unfolding next_sn
advance_sn zero counter = counter
advance_sn (suc n) counter = advance_sn n (next_sn counter).1

-- `NumberCounter<T, MIN, MAX>`: a call that throws still leaves the counter at its bound. The flag
-- is whether the call returned.
pub increment : ℕ → ℕ → ℕ × Bool
increment hi counter = if leb hi counter then (hi, false) else ((counter + 1) % 2 ^ 64, true)

unfoldable pub increase : ℕ → ℕ → ℕ → ℕ × Bool
increase hi counter diff = if leb hi counter then (hi, false) else ((counter + diff) % 2 ^ 64, true)

unfoldable pub decrement : ℕ → ℕ → ℕ × Bool
decrement lo counter = if leb counter lo then (lo, false) else (counter - 1, true)
