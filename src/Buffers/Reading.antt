-- ===== src/Buffers/Reading.antt =====
-- src/ioveccontainer.cpp: what stepForwardOffset does to the buffers of a container.
use sstoraged.Common.{
  ℕ, ◌+◌, ◌^◌, ◌≤◌, ◌<◌, ◌≡◌, List, [], ◌∷◌, length, All, arith, ltb, ◌⊎◌, if◌then◌else◌, sub64,
  Option, some, none, if_cases, ==_iff,
}
use sstoraged.Buffers.{
  CommonBuf, step_forward_offset, step_offsets, get_remain, Stepped, at_end, behind,
}
use sstoraged.Buffers.Space.{Packed, Blank, unread, free, unread-Blank}

-- How many buffers are not at their end.
abbrev pub open_count : List CommonBuf → ℕ
open_count [] = 0
open_count (b ∷ l) = (if at_end b then 0 else 1) + open_count l

pub open_count-length : (l : List CommonBuf) → open_count l ≤ length l
open_count-length [] = omega arith
open_count-length (b ∷ l) = ground (arith, open_count-length l)

-- A step into `size` bytes that are there to be read.
abbrev pub Taken : ℕ → List CommonBuf → Option Stepped → Type 0
Taken size l none = ⊥
Taken size l (some s) =
    Packed s.cbufs
    × ((unread s.cbufs + size ≡ unread l + s.left)
        × ((s.left ≤ size)
            × ((length s.cbufs ≡ length l)
                × ((free s.cbufs ≡ free l)
                    × (((s.left ≡ 0) ⊎ (open_count s.cbufs < open_count l))
                        × (All Blank l → All Blank s.cbufs))))))

Taken-behind :
    (size : ℕ) (b : CommonBuf) (l : List CommonBuf) (o : Option Stepped)
    → Packed (b ∷ l)
    → b.offset ≡ b.size
    → Taken size l o
    → Taken size (b ∷ l) (behind b o)
Taken-behind size b l none p e t = t
Taken-behind size b l (some s) p e t = ground arith

step_offsets-here :
    (size : ℕ) (b : CommonBuf) (l : List CommonBuf)
    → Packed (b ∷ l)
    → (b.tail < b.size → unread l ≡ 0)
    → (b.offset ≡ b.size → ⊥)
    → size < 2 ^ 63
    → size ≤ unread (b ∷ l)
    → Taken size (b ∷ l) (
        if ltb (get_remain b) size
        then some (record {
          found = (step_forward_offset (get_remain b) b).1;
          left = sub64 size (get_remain b);
          taken = get_remain b;
          cbufs = (step_forward_offset (get_remain b) b).1 ∷ l;
        })
        else some (record {
          found = (step_forward_offset size b).1;
          left = 0;
          taken = 0;
          cbufs = (step_forward_offset size b).1 ∷ l;
        }))
unfolding step_forward_offset
step_offsets-here size b l (s, (h, (k, p))) u n z le = ground arith

pub step_offsets-Taken :
    (l : List CommonBuf) (size : ℕ)
    → Packed l
    → 0 < size
    → size < 2 ^ 63
    → size ≤ unread l
    → Taken size l (step_offsets size l)
unfolding step_offsets
step_offsets-Taken [] size p o z le = absurd (omega (arith, o, le))
step_offsets-Taken (b ∷ l) size p o z le =
    if_cases (Taken size (b ∷ l)) (at_end b) _ _
      (λ e.
        Taken-behind size b l (step_offsets size l) p ((==_iff b.offset b.size).0 e)
          (step_offsets-Taken l size p.1.1.1 o z (ground (arith, le, p.0, e))))
      (λ e.
        step_offsets-here size b l p (λ t. unread-Blank l (p.1.0 t)) (λ q. ground (arith, e, q)) z
          le)
