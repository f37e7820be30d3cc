-- ===== src/Tokenizer.antt =====
-- src/iscsi/tokenizer.cpp and include/iscsi/tokenizer.h: `push`, which cuts what was received into
-- PDUs, and `pop`. The data segment of a token is in Transfer.
pub mod Take
pub mod Progress
use sstoraged.Common.{
  ℕ, zero, suc, ◌+◌, ◌*◌, ◌%◌, ◌^◌, Bool, true, false, not, ltb, ◌==◌, if◌then◌else◌, Option, none,
  some, List, [], ◌∷◌, ◌++◌, length, head?, add64, sub64,
}
use sstoraged.Buffers.{
  CommonBuf, IovecContainer, Stepped, is_edge, step_tails, step_offsets, update,
}

-- The bytes of the buffers, by name and index; `CommonBuf` has room for a header past its size.
abbrev pub Memory : Type 0
Memory = ℕ → ℕ → ℕ

-- memcpy of `n` bytes from the head of one buffer to the edge of another.
abbrev pub copy_to_edge : ℕ → CommonBuf → CommonBuf → Memory → Memory
copy_to_edge n src dst m name i =
    if name == dst.name
    then if ltb i dst.size
      then m name i
      else if ltb i (dst.size + n)
      then m src.name (sub64 i dst.size)
      else m name i
    else m name i

-- `getPDUlength` of the header at `i` of a buffer: AHS length and 24 bits of data length, padded to
-- words of 4 bytes, in uint32_t.
unfoldable pub get_pdu_length : Memory → ℕ → ℕ → ℕ
get_pdu_length m name i =
    let hlength = m name (i + 4) in
    let dlength = m name (i + 5) * 2 ^ 16 + m name (i + 6) * 2 ^ 8 + m name (i + 7) in
    let pdu_length = (48 + hlength + dlength) % 2 ^ 32 in
    if pdu_length % 4 == 0 then pdu_length else (pdu_length + sub64 4 (pdu_length % 4)) % 2 ^ 32

pub data TokenStatus : Type 0 where
  token_head token_partial token_complete : TokenStatus

-- `iSCSIToken`: the header's place, and the names of the buffers.
pub record QueuedToken : Type 0 where
  pub bhs_name : ℕ
  pub bhs_offset : ℕ
  pub cbufs : List ℕ

-- The tokenizer, its container and the memory.
pub record Tokenizer : Type 0 where
  pub memory : Memory
  pub buf : IovecContainer
  pub bhss : List QueuedToken
  pub status : TokenStatus
  pub offset : ℕ

-- The loop that steps over a PDU: the buffers it lies in, and the container; `none` when it is still
-- running after `fuel` rounds, as it is for ever where stepForwardOffset finds no buffer.
abbrev pub and_buffer : ℕ → Option (List ℕ × IovecContainer) → Option (List ℕ × IovecContainer)
and_buffer name none = none
and_buffer name (some (names, c)) = some (name ∷ names, c)

unfoldable pub take_pdu : ℕ → ℕ → IovecContainer → Option (List ℕ × IovecContainer)
take_pdu zero pdu_length c = none
take_pdu (suc fuel) pdu_length c =
    if pdu_length == 0 then some ([], c) else elim (step_offsets pdu_length c.cbufs) [
      | none ↦ none
      | some s ↦
          and_buffer s.found.name
            (take_pdu fuel s.left (record c { cbufs = s.cbufs; remain = sub64 c.remain s.taken }))
    ]

-- The `update` at the end.
abbrev pub finish : Option IovecContainer → Tokenizer → Option (Bool × Tokenizer)
finish none t = none
finish (some c) t = some (true, record t { buf = c })

-- The header on the edge of the first buffer.
abbrev pub join_header : List CommonBuf → Memory → Option Memory
join_header [] m = none
join_header (b ∷ []) m = if is_edge b b.offset 48 then none else some m
join_header (b ∷ c ∷ l) m =
    if is_edge b b.offset 48
    then some (copy_to_edge (sub64 48 (sub64 b.size b.offset)) c b m)
    else some m

abbrev pub token_at : List CommonBuf → List ℕ → QueuedToken
token_at [] names = record { bhs_name = 0; bhs_offset = 0; cbufs = names }
token_at (b ∷ l) names = record { bhs_name = b.name; bhs_offset = b.offset; cbufs = names }

-- The length of the PDU whose header the first buffer's offset is at.
abbrev pub pdu_length_at : Memory → Option CommonBuf → ℕ
pdu_length_at m none = 0
pdu_length_at m (some b) = get_pdu_length m b.name b.offset

-- The part for TOKEN_COMPLETE, with what `goto multi_tokens` does as an argument.
abbrev pub go_on :
    (Tokenizer → Option (Bool × Tokenizer))
    → Tokenizer
    → Option IovecContainer
    → Option (Bool × Tokenizer)
go_on goto t none = none
go_on goto t (some c) = goto (record t { buf = c })

abbrev pub queue_token :
    (Tokenizer → Option (Bool × Tokenizer))
    → ℕ
    → Tokenizer
    → Option (List ℕ × IovecContainer)
    → Option (Bool × Tokenizer)
queue_token goto pdu_length t none = none
queue_token goto pdu_length t (some (names, c)) =
    let next : Tokenizer = record t {
      buf = c;
      bhss = t.bhss ++ token_at t.buf.cbufs names ∷ [];
      status = token_head;
      offset = sub64 t.offset pdu_length;
    } in
    if next.offset == 0 then finish (update c) next else go_on goto next (update c)

-- The part for TOKEN_PARTIAL, from the header on.
abbrev pub cut_pdu :
    (Tokenizer → Option (Bool × Tokenizer)) → Tokenizer → Option Memory → Option (Bool × Tokenizer)
cut_pdu goto t none = none
cut_pdu goto t (some m) =
    let pdu_length = pdu_length_at m (head? t.buf.cbufs) in
    let joined : Tokenizer = record t { memory = m } in
    if ltb t.offset pdu_length
    then finish (update t.buf) (record joined { status = token_partial })
    else queue_token goto pdu_length joined
        (take_pdu (suc (suc (length t.buf.cbufs))) pdu_length t.buf)

-- `multi_tokens`, on fuel. No step sets TOKEN_COMPLETE, for which `bhs` is a null pointer.
unfoldable pub multi_tokens : ℕ → Tokenizer → Option (Bool × Tokenizer)
multi_tokens zero t = none
multi_tokens (suc fuel) t =
    let parsed = cut_pdu (multi_tokens fuel) t (join_header t.buf.cbufs t.memory) in
    elim t.status [
      | token_head ↦ if ltb t.offset 48 then finish (update t.buf) t else parsed
      | token_partial ↦ parsed
      | token_complete ↦ none
    ]

-- `push`; the fuel is one round for each byte, and one.
unfoldable pub push : ℕ → Tokenizer → Option (Bool × Tokenizer)
unfolding multi_tokens
push size t =
    let stepped = step_tails size t.buf.cbufs in
    let received : Tokenizer = record t {
      buf = record t.buf { cbufs = stepped.1 };
      offset = add64 t.offset size;
    } in
    if stepped.0 == 0
    then multi_tokens (suc received.offset) received
    else some (false, record t { buf = record t.buf { cbufs = stepped.1 } })

abbrev pub pop : Tokenizer → Bool × Tokenizer
pop t = elim t.bhss [ [] ↦ (false, t) | x ∷ l ↦ (true, record t { bhss = l }) ]
