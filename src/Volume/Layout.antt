-- ===== src/Volume/Layout.antt =====
-- The handles of a range against the layout of the volumes, byte by byte.
use sstoraged.Common.{
  ℕ, zero, suc, ◌+◌, ◌-◌, ◌^◌, ◌≤◌, ◌<◌, ◌≡◌, refl, sym, ap, ◌∙◌, true, false, ltb, ◌==◌,
  if◌then◌else◌, Option, none, some, List, [], ◌∷◌, ◌++◌, All, length, drop, arith, Bool-cases, inl,
  inr, add64, sub64,
}
use mathlib.Core.List.{append-nil}
use sstoraged.Volume.{PhysicalVolume, LowHandle, sector, get_coverage, get_low_handles}

-- A byte of a file.
abbrev pub Place : Type 0
Place = Option (ℕ × ℕ)

-- The byte `a` of the volumes one after the other.
abbrev pub located : List PhysicalVolume → ℕ → Place
located [] a = none
located (v ∷ l) a = if ltb a (sector v) then some (v.path, a) else located l (a - sector v)

abbrev pub layout : List PhysicalVolume → ℕ → ℕ → List Place
layout l a zero = []
layout l a (suc n) = located l a ∷ layout l (a + 1) n

abbrev pub run : ℕ → ℕ → ℕ → List Place
run path a zero = []
run path a (suc n) = some (path, a) ∷ run path (a + 1) n

-- The bytes that a list of handles stands for.
abbrev pub bytes : List LowHandle → List Place
bytes [] = []
bytes (h ∷ l) = run h.path h.offset h.length ++ bytes l

abbrev pub total : List PhysicalVolume → ℕ
total [] = 0
total (v ∷ l) = sector v + total l

pub run-length : (name o n : ℕ) → length (run name o n) ≡ n
run-length name o zero = refl
run-length name o (suc n) = omega (arith, run-length name (o + 1) n)

pub run_ap : (name o o' n n' : ℕ) → o ≡ o' → n ≡ n' → run name o n ≡ run name o' n'
run_ap name o o' n n' p q = ap (λ (m : ℕ). run name m n) p ∙ ap (run name o') q

pub drop-run : (name o n k : ℕ) → k ≤ n → drop k (run name o n) ≡ run name (o + k) (n - k)
drop-run name o n zero h = run_ap name o (o + 0) n (n - 0) (omega arith) (omega arith)
drop-run name o zero (suc k) h = absurd (omega (arith, h))
drop-run name o (suc n) (suc k) h =
    drop-run name (o + 1) n k (omega (arith, h))
    ∙ run_ap name (o + 1 + k) (o + suc k) (n - k) (suc n - suc k) (omega arith) (omega arith)

pub layout-length : (l : List PhysicalVolume) (a n : ℕ) → length (layout l a n) ≡ n
layout-length l a zero = refl
layout-length l a (suc n) = omega (arith, layout-length l (a + 1) n)

pub drop-layout :
    (l : List PhysicalVolume) (a n k : ℕ) → k ≤ n → drop k (layout l a n) ≡ layout l (a + k) (n - k)
drop-layout l a n zero h =
    ap (λ (m : ℕ). layout l m n) (omega arith) ∙ ap (layout l (a + 0)) (omega arith)
drop-layout l a zero (suc k) h = absurd (omega (arith, h))
drop-layout l a (suc n) (suc k) h =
    drop-layout l (a + 1) n k (omega (arith, h))
    ∙ (ap (λ (m : ℕ). layout l m (n - k)) (omega arith) ∙ ap (layout l (a + suc k)) (omega arith))

layout-add :
    (l : List PhysicalVolume) (a m n : ℕ) → layout l a (m + n) ≡ layout l a m ++ layout l (a + m) n
layout-add l a zero n =
    let e : 0 + n ≡ n = omega arith in let f : a + 0 ≡ a = omega arith in rw (e, f)
layout-add l a (suc m) n =
    let e : suc m + n ≡ suc (m + n) = omega arith in
    let f : a + 1 + m ≡ a + suc m = omega arith in
    rw e (
      ap (λ r. located l a ∷ r)
        (layout-add l (a + 1) m n ∙ ap (λ k. layout l (a + 1) m ++ layout l k n) f))

layout-run :
    (v : PhysicalVolume) (l : List PhysicalVolume) (a n : ℕ)
    → a + n ≤ sector v
    → layout (v ∷ l) a n ≡ run v.path a n
layout-run v l a zero h = refl
layout-run v l a (suc n) h =
    let here : ltb a (sector v) ≡ true = ground arith in
    rw (here, layout-run v l (a + 1) n (omega arith))

layout-past :
    (v : PhysicalVolume) (l : List PhysicalVolume) (a n : ℕ)
    → sector v ≤ a
    → layout (v ∷ l) a n ≡ layout l (a - sector v) n
layout-past v l a zero h = refl
layout-past v l a (suc n) h =
    let past : ltb a (sector v) ≡ false = ground arith in
    let e : a + 1 - sector v ≡ a - sector v + 1 = omega arith in
    rw (past, layout-past v l (a + 1) n (omega arith), e)

-- The handles of a range that is not empty and lies in the volumes, which all start at the head of
-- their files, stand for exactly the bytes of the range, in order.
pub get_low_handles-layout :
    (l : List PhysicalVolume) (cur remain : ℕ)
    → All (λ v. v.start ≡ 0) l
    → 0 < remain
    → cur + remain ≤ total l
    → total l < 2 ^ 63
    → bytes (get_low_handles l cur remain) ≡ layout l cur remain
unfolding get_low_handles get_coverage
get_low_handles-layout [] cur remain s p h w = absurd (omega arith)
get_low_handles-layout (v ∷ l) cur remain s p h w = elim (Bool-cases (ltb cur (sector v))) [
  | inr past ↦
      let none_here : ltb 0 (get_coverage v cur remain) ≡ false = ground arith in
      let k : sub64 cur (sector v) ≡ cur - sector v = ground arith in
      rw (none_here, k, layout-past v l cur remain (ground arith))
        (get_low_handles-layout l (cur - sector v) remain s.1 p (ground arith) (omega arith))
  | inl here ↦
      let at_cur : add64 v.start cur ≡ cur = ground (arith, s.0, here) in
      elim (Bool-cases (ltb (cur + remain) (sector v + 1))) [
        | inl whole ↦
            let all_here : get_coverage v cur remain ≡ remain = ground arith in
            let some_here : ltb 0 remain ≡ true = ground arith in
            let done : (sub64 remain remain == 0) ≡ true = ground arith in
            rw (
              at_cur,
              all_here,
              some_here,
              done,
              layout-run v l cur remain (ground arith),
              append-nil (run v.path cur remain),
            )
        | inr part ↦
            let m = sector v - cur in
            let covered : get_coverage v cur remain ≡ m = ground arith in
            let some_here : ltb 0 m ≡ true = ground arith in
            let rest : sub64 remain m ≡ remain - m = ground arith in
            let more : (remain - m == 0) ≡ false = ground arith in
            let split : m + (remain - m) ≡ remain = ground arith in
            let ahead : cur + m ≡ sector v = ground arith in
            let head : sector v - sector v ≡ 0 = omega arith in
            let both : layout (v ∷ l) cur remain ≡ run v.path cur m ++ layout l 0 (remain - m) =
              ap (λ n. layout (v ∷ l) cur n) (sym split)
              ∙ (layout-add (v ∷ l) cur m (remain - m)
                  ∙ rw (
                    ahead,
                    layout-run v l cur m (ground arith),
                    layout-past v l (sector v) (remain - m) (omega arith),
                    head,
                  )) in
            rw (
              at_cur,
              covered,
              some_here,
              rest,
              more,
              both,
              get_low_handles-layout l 0 (remain - m) s.1 (ground arith) (ground arith)
                  (omega arith),
            )
      ]
]
