-- ===== src/Buffers/Space.antt =====
-- src/ioveccontainer.cpp: what the steps of the tail and of the offset do to the space of one buffer
-- and of the buffers of a container.
use sstoraged.Common.{
  ℕ, ◌+◌, ◌-◌, ◌^◌, ◌≤◌, ◌<◌, ◌≡◌, refl, false, List, [], ◌∷◌, length, All, arith, ltb, ◌==◌,
  if◌then◌else◌, sub64,
}
use sstoraged.Buffers.{
  CommonBuf, common_buf_size, step_forward_tail, step_tails, get_capacity, at_end,
}

abbrev pub Sound : CommonBuf → Type 0
Sound b = (b.offset ≤ b.tail) × ((b.tail ≤ b.size) × (b.size ≡ common_buf_size))

-- What the buffers hold that is not read, and what they can take.
abbrev pub unread : List CommonBuf → ℕ
unread [] = 0
unread (b ∷ l) = (b.tail - b.offset) + unread l

abbrev pub free : List CommonBuf → ℕ
free [] = 0
free (b ∷ l) = (b.size - b.tail) + free l

abbrev pub Blank : CommonBuf → Type 0
Blank b = b.tail ≡ 0

abbrev pub Unread : CommonBuf → Type 0
Unread b = b.offset ≡ 0

-- Buffers filled and read in their order: what follows one that is not full is empty, and of what
-- follows one that is not at its end nothing is read.
abbrev pub Packed : List CommonBuf → Type 0
Packed [] = Unit
Packed (b ∷ l) =
    Sound b × ((b.tail < b.size → All Blank l) × ((b.offset < b.size → All Unread l) × Packed l))

pub unread-Blank : (l : List CommonBuf) → All Blank l → unread l ≡ 0
unread-Blank [] h = refl
unread-Blank (b ∷ l) (h, k) = omega (arith, h, unread-Blank l k)

-- The first buffer is not at its end.
abbrev pub FrontOpen : List CommonBuf → Type 0
FrontOpen [] = ⊥
FrontOpen (b ∷ l) = at_end b ≡ false

-- A step of the tails that fits.
abbrev pub Filled : ℕ → List CommonBuf → ℕ × List CommonBuf → Type 0
Filled size l r =
    (r.0 ≡ 0)
    × (Packed r.1
        × ((unread r.1 ≡ unread l + size)
            × ((length r.1 ≡ length l)
                × ((All Unread l → All Unread r.1) × (FrontOpen l → FrontOpen r.1)))))

step_tails-cons :
    (b : CommonBuf) (l : List CommonBuf) (size : ℕ) (rest : ℕ × List CommonBuf)
    → Packed (b ∷ l)
    → size < 2 ^ 64
    → size ≤ free (b ∷ l)
    → (b.size - b.tail < size → Filled (sub64 size (get_capacity b)) l rest)
    → Filled size (b ∷ l) (
        if size == 0
        then (size, b ∷ l)
        else if ltb (get_capacity b) size
        then (rest.0, (step_forward_tail (get_capacity b) b).1 ∷ rest.1)
        else (0, (step_forward_tail size b).1 ∷ l))
unfolding step_forward_tail
step_tails-cons b l size rest (s, (h, (k, p))) le ih = ground arith

pub step_tails-Filled :
    (l : List CommonBuf) (size : ℕ)
    → Packed l
    → size < 2 ^ 64
    → size ≤ free l
    → Filled size l (step_tails size l)
unfolding step_tails
step_tails-Filled [] size p z le =
    (omega (arith, le), (p, (omega (arith, le), (refl, (λ u. u, λ f. f)))))
step_tails-Filled (b ∷ l) size p z le =
    step_tails-cons b l size (step_tails (sub64 size (get_capacity b)) l) p z le (λ more.
      step_tails-Filled l (sub64 size (get_capacity b)) p.1.1.1 (omega (arith, z))
        (omega (arith, p.0, z, le, more)))
