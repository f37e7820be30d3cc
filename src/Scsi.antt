-- ===== src/Scsi.antt =====
-- What the SCSI handlers that answer from the target's own state share: the header of a SCSI command
-- and its CDB as bytes (include/iscsi/command.h, include/scsi/*.h), the data segment of a reply
-- (include/scsi/generic.h), and the way each of them begins and ends a reply. The machine is
-- little-endian. A new buffer holds arbitrary bytes, and so do the members of a struct that its
-- constructor does not set: both are parameters.
pub mod Parts
pub mod Inquiry
pub mod Capacity
pub mod Luns
pub mod ModeSense
pub mod Sense
use sstoraged.Common.{
  ℕ, ◌+◌, ◌*◌, ◌-◌, ◌/◌, ◌%◌, ◌^◌, Bool, true, false, not, ◌&&◌, ltb, ◌==◌, if◌then◌else◌, Option,
  none, some, List, [], ◌∷◌, length, get_elem?, take, drop,
}
use sstoraged.Session.{
  Session, CommandReq, DataReply, pdu_data_reply, task_send, push_task, advance_statsn,
}
use sstoraged.DataInBuffer.{
  DataInGenerator, new_generator, reserve_data_segment, set_residual_count, serialize,
}

-- `CommandReqHeader`. `scb` are the bytes of the buffer from the SCB on: the first 16 belong to the
-- header. `lun` are the 8 bytes of the LUN.
pub record CommandHeader : Type 0 where
  pub opcode : ℕ
  pub flags : ℕ
  pub dlength : ℕ
  pub lun : List ℕ
  pub itt : ℕ
  pub expdatalen : ℕ
  pub scb : List ℕ

abbrev pub byte : List ℕ → ℕ → ℕ
byte l i = elim (get_elem? l i) [ none ↦ 0 | some b ↦ b ]

-- ntohs, ntohl and be64toh of a member at an offset.
abbrev pub be16 : List ℕ → ℕ → ℕ
be16 l i = byte l i * 256 + byte l (i + 1)

abbrev pub be32 : List ℕ → ℕ → ℕ
be32 l i = be16 l i * 65536 + be16 l (i + 2)

abbrev pub be64 : List ℕ → ℕ → ℕ
be64 l i = be32 l i * 2 ^ 32 + be32 l (i + 4)

-- A bit of a byte.
abbrev pub flag : ℕ → ℕ → Bool
flag b k = b / 2 ^ k % 2 == 1

-- `LUN(id)`: four zeros, then htonl.
unfoldable pub lun_bytes : ℕ → List ℕ
lun_bytes id =
    0
    ∷ (0
        ∷ (0
            ∷ (0
                ∷ (id / 2 ^ 24 % 256
                    ∷ (id / 2 ^ 16 % 256 ∷ (id / 2 ^ 8 % 256 ∷ (id % 256 ∷ [])))))))

-- `LUN::get`: the last four bytes, as they lie in memory.
unfoldable pub lun_get : List ℕ → ℕ
lun_get l = byte l 4 + byte l 5 * 2 ^ 8 + byte l 6 * 2 ^ 16 + byte l 7 * 2 ^ 24

-- `iSCSIInitiator::getLUN`, over the sizes of the logical volumes.
abbrev pub get_lun : ℕ → List ℕ → Option ℕ
get_lun lun lvs = get_elem? lvs lun

-- What the parsers get: `CommandParser`, and the getters of a CDB of READ(10) or WRITE(10).
unfoldable pub to_req : CommandHeader → CommandReq
unfolding lun_get
to_req h = record {
  op_code = h.opcode % 2 ^ 6;
  flag_read = flag h.flags 6;
  flag_write = flag h.flags 5;
  final = flag h.flags 7;
  immediate_cmd = flag h.opcode 6;
  itt = h.itt;
  lun = lun_get h.lun;
  dlength = h.dlength;
  cdb_op_code = byte h.scb 0;
  protect = byte h.scb 1 / 2 ^ 5 * 2 ^ 5;
  dpo = flag (byte h.scb 1) 4;
  lba = be32 h.scb 2;
  transfer_length = be16 h.scb 7;
}

-- The two tests at the head of each handler, with the result of its parser's `valid`.
abbrev pub accepts : Bool → CommandReq → Bool
accepts ok req = req.flag_read && (not req.flag_write && (ok && req.final))

-- A write of a struct at an offset of a data segment; where the struct does not set a byte, what is
-- left is `garbage`.
abbrev pub one_byte : ℕ → ℕ → Option (Option ℕ) → ℕ
one_byte kept garbage none = kept
one_byte kept garbage (some none) = garbage
one_byte kept garbage (some (some b)) = b

unfoldable pub overlay : (ℕ → ℕ) → ℕ → List (Option ℕ) → (ℕ → ℕ) → ℕ → ℕ
overlay garbage o fields area i =
    if ltb i o then area i else one_byte (area i) (garbage i) (get_elem? fields (i - o))

-- The bytes that are set, and n bytes that are not.
abbrev pub unset : ℕ → List (Option ℕ) → List (Option ℕ)
unset ℕ.zero l = l
unset (ℕ.suc n) l = none ∷ unset n l

-- CHECK_CONDITION is 1 in include/scsi.h.
abbrev pub good : ℕ
good = 0

abbrev pub check_condition : ℕ
check_condition = 1

-- The generator of a reply, on a new buffer.
abbrev pub start_reply : ℕ → (ℕ → ℕ) → ℕ → CommandReq → Session → DataReply
start_reply name fresh status req s = record {
  itt = req.itt;
  cmd_status = status;
  statsn = s.statsn;
  expcmdsn = s.expcmdsn;
  maxcmdsn = s.maxcmdsn;
  gen = new_generator name;
  area = fresh;
}

-- The send task: what `serialize` returns is the buffer of the generator.
abbrev pub send_reply : DataReply → Session → Session
send_reply r s =
    push_task
      (task_send (pdu_data_reply (record r { gen = record r.gen { cbuf = serialize r.gen } }))) s

-- setResidualCount, and the send task.
abbrev pub finish_reply : ℕ → DataReply → Session → Session
finish_reply exp r s = send_reply (record r { gen = set_residual_count exp r.gen.dlength r.gen }) s

-- A reply whose data segment is one struct; `none` is a write through a null pointer.
unfoldable pub reply_struct :
    ℕ
    → (ℕ → ℕ)
    → (ℕ → ℕ)
    → ℕ
    → List (Option ℕ)
    → CommandHeader
    → CommandReq
    → Session
    → Option (Bool × Session)
unfolding reserve_data_segment set_residual_count serialize
reply_struct name fresh stack status fields h req s =
    let r = start_reply name fresh status req s in
    let g = reserve_data_segment (length fields) r.gen in
    if g.0
    then some (
      true,
      finish_reply h.expdatalen (record r { gen = g.1; area = overlay stack 0 fields r.area })
          (advance_statsn s),
    )
    else none
