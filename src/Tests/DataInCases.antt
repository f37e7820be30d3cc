-- ===== src/Tests/DataInCases.antt =====
-- An INQUIRY reply: 255 bytes reserved and 37 of them sent; and one of which only 36 are expected.
use sstoraged.Common.{ltb, false, ℕ, ◌+◌, ◌-◌, ◌*◌, ◌/◌, ◌≡◌, ◌<◌, ◌≤◌, ◌⊎◌, refl, true, arith}
use sstoraged.Buffers.{common_buf_size}
use sstoraged.DataInBuffer.{
  DataInGenerator, new_generator, reserve_data_segment, reset_dlength, set_residual_count,
  serialize,
}
use sstoraged.DataInBuffer.Padding.{Padded, Shrunk, reserve_data_segment-Padded, residual-sent}

reserve_data_segment-Padded_example :
    (((reserve_data_segment 255 (new_generator 3)).0 ≡ true)
      × (((0 < 255) × (48 + 255 ≤ common_buf_size))
          × (Padded 255 (serialize (reserve_data_segment 255 (new_generator 3)).1)
              × Shrunk 255 37 (reset_dlength 37 (reserve_data_segment 255 (new_generator 3)).1))))
    ⊎ (((reserve_data_segment 255 (new_generator 3)).0 ≡ false)
        × ((◌≡◌ {A = ℕ} 255 0) ⊎ (common_buf_size < 48 + 255)))
reserve_data_segment-Padded_example =
    reserve_data_segment-Padded 3 255 37 (omega arith) (omega arith)

abbrev reply : DataInGenerator
reply = record {
  cbuf = record { name = 3; size = 131072; offset = 0; tail = 85 };
  dlength = 37;
  residual_count = 0;
  underflow = false;
  overflow = false;
}

residual-sent_example :
    (((set_residual_count 36 37 reply).underflow ≡ ltb 37 36)
      × ((set_residual_count 36 37 reply).overflow ≡ ltb 36 37))
    × (((37 ≤ 36)
          × (((set_residual_count 36 37 reply).residual_count ≡ 36 - 37)
              × (((set_residual_count 36 37 reply).dlength ≡ 37)
                  × Padded 37 (serialize (set_residual_count 36 37 reply)))))
        ⊎ ((36 < 37)
            × (((set_residual_count 36 37 reply).residual_count ≡ 37 - 36)
                × (((set_residual_count 36 37 reply).dlength ≡ 36)
                    × ((serialize (set_residual_count 36 37 reply)).tail
                        ≡ 48 + (36 + 3) / 4 * 4 + (37 - 36))))))
residual-sent_example =
    residual-sent 37 36 reply ((omega arith, (omega arith, refl)), (refl, (omega arith, refl)))
      (omega arith) (omega arith) refl refl refl
