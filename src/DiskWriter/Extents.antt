-- ===== src/DiskWriter/Extents.antt =====
-- What doWrite has written when it returns.
use sstoraged.Common.{
  ℕ, ◌+◌, ◌-◌, ◌^◌, ◌≤◌, ◌<◌, ◌≡◌, ◌≢◌, refl, Bool, true, ◌==◌, Option, none, some, List, [], ◌∷◌,
  arith, Bool-cases, inl, inr, add64, sub64,
}
use sstoraged.DiskWriter.{Pwrite, pwrite_size, pwrite_eintr, pwrite_error, Extent, extend, do_write}

-- Calls that write n bytes, some of them interrupted, none for more than it is asked.
abbrev pub Writes : List Pwrite → ℕ → Type 0
Writes [] n = ⊥
Writes (pwrite_eintr ∷ l) n = Writes l n
Writes (pwrite_error ∷ l) n = ⊥
Writes (pwrite_size k ∷ l) n = (k ≤ n) × (k ≢ n → Writes l (n - k))

-- Extents one after the other, in the buffer and in the file, of n bytes together.
abbrev pub Tiles : ℕ → ℕ → ℕ → List Extent → Type 0
Tiles ptr n offset [] = n ≡ 0
Tiles ptr n offset (e ∷ l) =
    (e.ptr ≡ ptr)
    × (e.offset ≡ offset)
    × (e.size ≤ n)
    × Tiles (ptr + e.size) (n - e.size) (offset + e.size) l

abbrev pub Written : ℕ → ℕ → ℕ → Option (Bool × List Extent) → Type 0
Written ptr n offset none = ⊥
Written ptr n offset (some (ok, l)) = (ok ≡ true) × Tiles ptr n offset l

extend-Written :
    (ptr n offset k : ℕ) (o : Option (Bool × List Extent))
    → k ≤ n
    → Written (ptr + k) (n - k) (offset + k) o
    → Written ptr n offset (extend (record { ptr = ptr; offset = offset; size = k }) o)
extend-Written ptr n offset k none h w = w
extend-Written ptr n offset k (some (ok, l)) h w = (w.0, (refl, refl, h, w.1))

-- doWrite returns with success where pwrite64 goes on to write, however it splits the bytes and
-- however often it is interrupted, and has then written every byte of the buffer once, in order, at
-- its place behind the offset. The addresses and offsets do not wrap.
pub do_write-Written :
    (l : List Pwrite) (ptr n offset : ℕ)
    → Writes l n
    → ptr + n < 2 ^ 64
    → offset + n < 2 ^ 64
    → Written ptr n offset (do_write l ptr n offset)
unfolding do_write
do_write-Written [] ptr n offset h a b = h
do_write-Written (pwrite_eintr ∷ l) ptr n offset h a b = do_write-Written l ptr n offset h a b
do_write-Written (pwrite_error ∷ l) ptr n offset h a b = absurd h
do_write-Written (pwrite_size k ∷ l) ptr n offset h a b = elim (Bool-cases (k == n)) [
  | inl e ↦ rw e (refl, (refl, refl, h.0, ground (arith, e)))
  | inr e ↦
      let p : add64 ptr k ≡ ptr + k = omega (arith, h.0) in
      let q : sub64 n k ≡ n - k = omega (arith, h.0) in
      let r : add64 offset k ≡ offset + k = omega (arith, h.0) in
      rw (e, p, q, r)
        (extend-Written ptr n offset k (do_write l (ptr + k) (n - k) (offset + k)) h.0 (
          do_write-Written l (ptr + k) (n - k) (offset + k) (h.1 (λ x. ground (arith, e, x)))
            (omega (arith, h.0)) (omega (arith, h.0))))
]
