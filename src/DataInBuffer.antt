-- ===== src/DataInBuffer.antt =====
-- src/iscsi/datain.cpp: the buffer of a Data-In PDU, from the reservation of a data segment to its
-- padding.
pub mod Padding
use sstoraged.Common.{
  ℕ, ◌%◌, ◌^◌, ◌+◌, ◌-◌, Bool, true, false, ltb, ◌==◌, if◌then◌else◌, sub32, sub64,
}
use sstoraged.Buffers.{
  CommonBuf, new_common_buf, get_capacity, step_forward_tail, step_backward_tail,
}

-- `DataInGenerator`: the buffer, and DataSegmentLength in the header, which fits its 24 bits.
-- The flags are of an underflow and of an overflow.
pub record DataInGenerator : Type 0 where
  pub cbuf : CommonBuf
  pub dlength : ℕ
  pub underflow : Bool
  pub overflow : Bool
  pub residual_count : ℕ

-- The constructor; a header has 48 bytes.
abbrev pub new_generator : ℕ → DataInGenerator
unfolding step_forward_tail
new_generator name = record {
  cbuf = (step_forward_tail 48 (new_common_buf name)).1;
  dlength = 0;
  underflow = false;
  overflow = false;
  residual_count = 0;
}

-- `reserveDataSegment`: false is a null pointer.
unfoldable pub reserve_data_segment : ℕ → DataInGenerator → Bool × DataInGenerator
unfolding step_forward_tail
reserve_data_segment size g =
    if size == 0
    then (false, g)
    else if ltb (get_capacity g.cbuf) size
    then (false, g)
    else (true, record g { cbuf = (step_forward_tail size g.cbuf).1; dlength = size })

-- `resetDlength`; the length is set before the buffer is shrunk.
unfoldable pub reset_dlength : ℕ → DataInGenerator → Bool × DataInGenerator
unfolding step_backward_tail
reset_dlength size g =
    let shrunk = step_backward_tail (sub64 g.dlength size) g.cbuf in
    if size == 0
    then (false, g)
    else if ltb (get_capacity g.cbuf) size
    then (false, g)
    else if ltb g.dlength size
    then (false, g)
    else (shrunk.0, record g { cbuf = shrunk.1; dlength = size })

-- `setResidualCount`, of the length that the initiator expects and the length of the reply.
unfoldable pub set_residual_count : ℕ → ℕ → DataInGenerator → DataInGenerator
set_residual_count exp cur g =
    if ltb cur exp
    then record g { underflow = true; residual_count = sub32 exp cur }
    else if ltb exp cur
    then record g { overflow = true; residual_count = sub32 cur exp; dlength = exp }
    else g

-- `serialize`
unfoldable pub serialize : DataInGenerator → CommonBuf
unfolding step_forward_tail
serialize g =
    if g.dlength % 4 == 0 then g.cbuf else (step_forward_tail (sub64 4 (g.dlength % 4)) g.cbuf).1
