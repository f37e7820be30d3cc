-- ===== src/DataInBuffer/Padding.antt =====
-- src/iscsi/datain.cpp: how long the PDU is that a generator sends.
use sstoraged.Common.{
  ℕ, ◌+◌, ◌-◌, ◌*◌, ◌/◌, ◌^◌, ◌≤◌, ◌<◌, ◌≡◌, ltb, Bool, true, false, ◌⊎◌, inl, inr, arith,
}
use sstoraged.Buffers.{CommonBuf, common_buf_size, step_forward_tail, step_backward_tail}
use sstoraged.Buffers.Space.{Sound}
use sstoraged.DataInBuffer.{
  DataInGenerator, new_generator, reserve_data_segment, reset_dlength, set_residual_count,
  serialize,
}

-- A generator whose buffer holds a header and `n` bytes of data.
abbrev pub Holds : ℕ → DataInGenerator → Type 0
Holds n g = Sound g.cbuf × ((g.cbuf.offset ≡ 0) × ((g.cbuf.tail ≡ 48 + n) × (g.dlength ≡ n)))

new_generator-Holds : (name : ℕ) → Holds 0 (new_generator name)
unfolding new_generator step_forward_tail
new_generator-Holds name = ground arith

-- The reservation of a data segment: it succeeds where the segment is not empty and fits.
reserve-Holds :
    (n : ℕ) (g : DataInGenerator)
    → Holds 0 g
    → n < 2 ^ 32
    → (let r = reserve_data_segment n g in
        ((r.0 ≡ true) × ((0 < n) × ((48 + n ≤ common_buf_size) × Holds n r.1)))
        ⊎ ((r.0 ≡ false) × (((n ≡ 0) ⊎ (common_buf_size < 48 + n)) × Holds 0 r.1)))
unfolding reserve_data_segment step_forward_tail
reserve-Holds n g h z = ground arith

reset-Holds :
    (n m : ℕ) (g : DataInGenerator)
    → Holds n g
    → m < 2 ^ 32
    → (let r = reset_dlength m g in
        ((r.0 ≡ true) × ((0 < m) × ((m ≤ n) × ((48 + n + m ≤ common_buf_size) × Holds m r.1))))
        ⊎ ((r.0 ≡ false) × (((m ≡ 0) ⊎ ((n < m) ⊎ (common_buf_size < 48 + n + m))) × Holds n r.1)))
unfolding reset_dlength step_backward_tail
reset-Holds n m g h z = ground arith

serialize-Padded :
    (n : ℕ) (g : DataInGenerator)
    → Holds n g
    → Sound (serialize g)
      × (((serialize g).offset ≡ 0) × ((serialize g).tail ≡ 48 + (n + 3) / 4 * 4))
unfolding serialize step_forward_tail
serialize-Padded n g h = ground arith

-- What is sent: a sound buffer with a header, `n` bytes of data and the padding to words of four bytes.
abbrev pub Padded : ℕ → CommonBuf → Type 0
Padded n b = Sound b × ((b.offset ≡ 0) × (b.tail ≡ 48 + (n + 3) / 4 * 4))

-- What a reset to `m` bytes leads to, for a generator that holds `n` bytes.
abbrev pub Shrunk : ℕ → ℕ → Bool × DataInGenerator → Type 0
Shrunk n m t =
    ((t.0 ≡ true)
      × (((0 < m) × ((m ≤ n) × (48 + n + m ≤ common_buf_size)))
          × ((t.1.dlength ≡ m) × Padded m (serialize t.1))))
    ⊎ ((t.0 ≡ false)
        × (((m ≡ 0) ⊎ ((n < m) ⊎ (common_buf_size < 48 + n + m))) × Padded n (serialize t.1)))

reset_dlength-Shrunk :
    (n m : ℕ) (g : DataInGenerator) → Holds n g → m < 2 ^ 32 → Shrunk n m (reset_dlength m g)
reset_dlength-Shrunk n m g h y =
    let t = reset_dlength m g in
    elim (reset-Holds n m g h y) [
      | inl (f, (c, (d, (l, q)))) ↦ inl (f, ((c, (d, l)), (q.1.1.1, serialize-Padded m t.1 q)))
      | inr (f, (w, q)) ↦ inr (f, (w, serialize-Padded n t.1 q))
    ]

-- A new generator, lengths below 2 ^ 32: a reservation of `n` bytes succeeds just where there are some
-- and they fit in the buffer behind the header. Then what is sent is the header, the data and the
-- padding to a word, as the length in the header says; a later reset to `m` bytes succeeds just where
-- `m` is not zero, is not more than `n`, and also fits in what is free behind the reservation, and then
-- what is sent is as long as that; where it fails, what is sent stays as long as before.
pub reserve_data_segment-Padded :
    (name n m : ℕ)
    → n < 2 ^ 32
    → m < 2 ^ 32
    → (let r = reserve_data_segment n (new_generator name) in
        ((r.0 ≡ true)
          × (((0 < n) × (48 + n ≤ common_buf_size))
              × (Padded n (serialize r.1) × Shrunk n m (reset_dlength m r.1))))
        ⊎ ((r.0 ≡ false) × ((n ≡ 0) ⊎ (common_buf_size < 48 + n))))
reserve_data_segment-Padded name n m z y =
    let r = reserve_data_segment n (new_generator name) in
    elim (reserve-Holds n (new_generator name) (new_generator-Holds name) z) [
      | inl (e, (a, (b, g))) ↦
          inl (e, ((a, b), (serialize-Padded n r.1 g, reset_dlength-Shrunk n m r.1 g y)))
      | inr (e, (w, g)) ↦ inr (e, w)
    ]

-- The residual count of a reply with `cur` bytes of data and room for the padding, of which the
-- initiator expects `exp`, for a generator with neither flag set: the flags tell which is more. Where
-- `exp` is no fewer, the count is what is missing and the reply is as
-- long as its header says, which is `cur`. Where it is fewer, the count is what is too much, the header says `exp`,
-- but the buffer still has every byte, so what is sent is longer by these than the header says.
pub residual-sent :
    (cur exp : ℕ) (g : DataInGenerator)
    → Holds cur g
    → 51 + cur ≤ common_buf_size
    → exp < 2 ^ 32
    → g.residual_count ≡ 0
    → g.underflow ≡ false
    → g.overflow ≡ false
    → (let s = set_residual_count exp cur g in
        ((s.underflow ≡ ltb cur exp) × (s.overflow ≡ ltb exp cur))
        × (((cur ≤ exp)
              × ((s.residual_count ≡ exp - cur) × ((s.dlength ≡ cur) × Padded cur (serialize s))))
            ⊎ ((exp < cur)
                × ((s.residual_count ≡ cur - exp)
                    × ((s.dlength ≡ exp)
                        × ((serialize s).tail ≡ 48 + (exp + 3) / 4 * 4 + (cur - exp)))))))
unfolding set_residual_count serialize step_forward_tail
residual-sent cur exp g h f z e u o = ground arith
