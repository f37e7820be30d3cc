-- ===== src/SendCache/Place.antt =====
-- The loop of _stepForward over the data of a segment.
use sstoraged.Common.{
  ℕ, drop, zero, suc, ◌+◌, ◌-◌, ◌^◌, ◌≤◌, ◌<◌, ◌≡◌, refl, ap, subst, ◌∙◌, min, Bool, true, false,
  leb, ◌==◌, if◌then◌else◌, List, [], ◌∷◌, length, All, arith, Bool-cases, inl, inr, sub64,
}
use sstoraged.SendCache.{advance}

abbrev pub sum : List ℕ → ℕ
sum [] = 0
sum (b ∷ l) = b + sum l

-- The bytes of the segment before the place of a task: the data begins `ds` bytes into the first
-- buffer.
abbrev pub data_sizes : ℕ → List ℕ → List ℕ
data_sizes ds [] = []
data_sizes ds (b ∷ l) = (b - ds) ∷ l

abbrev pub place : List ℕ → ℕ → ℕ → ℕ
place [] cur offset = offset
place (b ∷ l) zero offset = offset
place (b ∷ l) (suc cur) offset = b + place l cur offset

-- The step over `tmp` bytes from `offset`, in the buffers `l` of data.
abbrev pub Stepped : List ℕ → ℕ → ℕ → ℕ → Bool × ℕ × ℕ → Type 0
Stepped l cur offset tmp r =
    (c : ℕ) × (o : ℕ) × (r ≡ (true, cur + c, o)) × (place l c o ≡ offset + tmp)

module _ (total ds : ℕ) where
  shifted : (x c : ℕ) → x + 1 + c ≡ x + suc c
  shifted x c = omega arith

  -- The rest of a step, from the head of the next buffer.
  over_buffer :
      (b : ℕ) (l : List ℕ) (cur offset tmp : ℕ) (r : Bool × ℕ × ℕ)
      → offset ≤ b
      → b - offset ≤ tmp
      → Stepped l (cur + 1) 0 (tmp - (b - offset)) r
      → Stepped (b ∷ l) cur offset tmp r
  over_buffer b l cur offset tmp r k m (c, o, f, g) =
      (suc c, o, f ∙ ap (λ x. (true, x, o)) (shifted cur c), omega (arith, g))

  -- One round, given those that follow.
  pub advance_first :
      (b : ℕ) (l : List ℕ) (cur offset tmp d : ℕ)
      → d ≡ (if cur == 0 then ds else 0)
      → offset + d ≤ b
      → b < 2 ^ 64
      → tmp < total
      → ((n : ℕ)
          → n ≤ tmp
          → n ≤ tmp - (b - d - offset)
          → Stepped l (cur + 1) 0 n (advance total ds l (cur + 1) 0 n))
      → Stepped ((b - d) ∷ l) cur offset tmp (advance total ds (b ∷ l) cur offset tmp)
  unfolding advance
  advance_first b l cur offset tmp d e k w t ih =
      let room : sub64 (sub64 b offset) d ≡ b - d - offset = omega arith in
      elim (Bool-cases (tmp == 0)) [
        | inl z ↦ (0, offset, rw z (ap (λ c. (true, c, offset)) (omega arith)), ground (arith, z))
        | inr nz ↦ elim (Bool-cases (leb (min total (b - d - offset)) tmp)) [
          | inl over ↦
              let full : min total (b - d - offset) ≡ b - d - offset = ground (arith, over) in
              rw (nz, ← e, room, over, full)
                (over_buffer (b - d) l cur offset tmp
                  (advance total ds l (cur + 1) 0 (tmp - (b - d - offset))) (omega arith)
                  (ground (arith, over, full))
                  (ih (tmp - (b - d - offset)) (omega arith) (omega arith)))
          | inr inside ↦ (
            0,
            offset + tmp,
            rw (nz, ← e, room, inside) (ap (λ c. (true, c, offset + tmp)) (omega arith)),
            refl,
          )
        ]
      ]

  pub advance-Stepped :
      (l : List ℕ) (cur tmp : ℕ)
      → 0 < cur
      → tmp < total
      → tmp ≤ sum l
      → All (λ b. b < 2 ^ 64) l
      → Stepped l cur 0 tmp (advance total ds l cur 0 tmp)
  unfolding advance
  advance-Stepped [] cur tmp p t r w =
      let z : (tmp == 0) ≡ true = ground arith in
      (0, 0, rw z (ap (λ c. (true, c, 0)) (omega arith)), omega arith)
  advance-Stepped (b ∷ l) cur tmp p t r w =
      let same : 0 ≡ (if cur == 0 then ds else 0) = ground arith in
      let whole : b - 0 ≡ b = omega arith in
      subst (λ h. Stepped (h ∷ l) cur 0 tmp (advance total ds (b ∷ l) cur 0 tmp)) whole
        (advance_first b l cur 0 tmp 0 same (omega arith) w.0 t
          (λ n h k. advance-Stepped l (cur + 1) n (omega arith) (omega arith) (omega arith) w.1))

pub place-add :
    (l : List ℕ) (cur c o : ℕ) → place l (cur + c) o ≡ place l cur 0 + place (drop cur l) c o
place-add [] zero c o = omega arith
place-add [] (suc cur) c o = omega arith
place-add (b ∷ l) zero c o = let e : 0 + c ≡ c = omega arith in rw e (omega arith)
place-add (b ∷ l) (suc cur) c o =
    let e : suc cur + c ≡ suc (cur + c) = omega arith in rw e (omega (arith, place-add l cur c o))

-- The data from a buffer of the segment on.
pub drop-data_sizes :
    (ds b : ℕ) (sizes : List ℕ) (cur : ℕ) (l : List ℕ)
    → drop cur sizes ≡ b ∷ l
    → drop cur (data_sizes ds sizes) ≡ (b - (if cur == 0 then ds else 0)) ∷ l
drop-data_sizes ds b [] zero l e = cc
drop-data_sizes ds b [] (suc cur) l e = cc
drop-data_sizes ds b (x ∷ sizes) zero l e = ap (data_sizes ds) e
drop-data_sizes ds b (x ∷ sizes) (suc cur) l e =
    let same : (suc cur == 0) ≡ false = ground arith in
    let none_off : b - 0 ≡ b = omega arith in rw (same, none_off) e

pub drop-length :
    (sizes : List ℕ) (cur b : ℕ) (l : List ℕ) → drop cur sizes ≡ b ∷ l → cur < length sizes
drop-length [] zero b l e = cc
drop-length [] (suc cur) b l e = cc
drop-length (x ∷ sizes) zero b l e = omega arith
drop-length (x ∷ sizes) (suc cur) b l e = omega (arith, drop-length sizes cur b l e)
