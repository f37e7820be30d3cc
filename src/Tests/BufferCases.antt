-- ===== src/Tests/BufferCases.antt =====
-- A container for 8192 bytes, into which 100 bytes come: two PDUs of a header each, and four bytes of
-- a third.
use sstoraged.Common.{ℕ, ◌≡◌, refl, [], some, none, length}
use sstoraged.Buffers.{
  CommonBuf, IovecContainer, step_forward_tail, step_backward_tail, step_forward_offset, reserve,
  new_common_buf, common_buf_size, update,
}
use sstoraged.Tokenizer.{Tokenizer, token_head, push}

abbrev half_read : CommonBuf
half_read = record { name = 7; size = 131072; offset = 48; tail = 131000 }

abbrev no_buffers : IovecContainer
no_buffers = record { vec = []; count = 0; cbufs = []; remain = 0; overflow = 0; fresh = 0 }

abbrev fresh_buffers : IovecContainer
unfolding reserve
fresh_buffers = (reserve 8192 no_buffers).1

abbrev new_tokenizer : Tokenizer
new_tokenizer = record {
  memory = λ name i. 0;
  buf = fresh_buffers;
  bhss = [];
  status = token_head;
  offset = 0;
}

two_tokens :
    (elim (push 100 new_tokenizer) as (λ o. ℕ × ℕ) [
      | none ↦ (0, 0)
      | some r ↦ (length r.1.bhss, r.1.offset)
    ])
    ≡ (2, 4)
unfolding push sstoraged.Buffers.step_tails fresh_buffers sstoraged.Tokenizer.get_pdu_length
    sstoraged.Tokenizer.take_pdu sstoraged.Buffers.step_offsets update
two_tokens = refl
