-- ===== src/Transfer.antt =====
-- How data for a WRITE(10) comes in: the data segment of a PDU (frontDataSegment of
-- src/iscsi/tokenizer.cpp), src/scsi/write.cpp and src/iscsi/dataout.cpp.
-- `tag` and `lun` are the getters' values; a Target Transfer Tag is the Initiator Task Tag.
pub mod DataSegment
pub mod Sequence
pub mod Finish
pub mod Complete
pub mod Open
use sstoraged.Common.{
  ℕ, ◌+◌, ◌-◌, ◌/◌, ◌%◌, ◌^◌, min, Bool, true, false, not, ◌&&◌, ◌||◌, ltb, leb, ◌==◌,
  if◌then◌else◌, Option, none, some, List, [], ◌∷◌, ◌++◌, length, sub32, add64, sub64,
}
use sstoraged.Cache.{
  WriteSegment, LbaIndex, new_segment, set_1st_data_segment, add_data_segment, lba2offset,
}
use sstoraged.Counter.{next_sn}
use sstoraged.Session.{
  Session, CommandReq, Token, Cbuf, DataOutInfo, R2t, Task, Pdu, pdu_r2t, task_send, push_task,
  store, respond, recv_get, recv_put, recv_set, recv_pop,
}
use sstoraged.Read.{offset2lba}

-- The loop over the buffers after the first.
unfoldable pub fill : WriteSegment → ℕ → ℕ → List Cbuf → Option WriteSegment
fill ws dlength stored [] = if ltb stored dlength then none else some ws
fill ws dlength stored (b ∷ l) =
    let size = min (dlength - stored) b.size in
    let (ok, ws') = add_data_segment ws b.name size in
    let rest = fill ws' dlength (stored + size) l in
    if ltb stored dlength then if ok then rest else none else some ws

-- From the buffer in which the data begins, at `ds_offset`.
unfoldable pub fill_from : ℕ → ℕ → ℕ → ℕ → Cbuf → List Cbuf → Option WriteSegment
unfolding fill
fill_from lba transfer_length dlength ds_offset b l =
    let stored = min dlength (sub64 b.size ds_offset) in
    let (ok, ws) =
      set_1st_data_segment (new_segment 0 lba transfer_length) b.name stored ds_offset in
    let rest = fill ws dlength stored l in if ok then rest else none

-- `frontDataSegment`; a header has 48 bytes.
unfoldable pub front_data_segment : Token → ℕ → ℕ → Option WriteSegment
unfolding fill_from
front_data_segment t lba transfer_length =
    let left = sub64 t.first.size t.bhs_offset in
    if t.dlength == 0
    then none
    else if ltb left 48
    then if ltb t.first.size t.bhs_offset then none else elim t.others [
      | [] ↦ none
      | b ∷ l ↦ fill_from lba transfer_length t.dlength (48 - left) b l
    ]
    else fill_from lba transfer_length t.dlength (48 + t.hlength + t.bhs_offset) t.first t.others

-- `Write10Parser::valid`; WRITE_10 is 0x2A.
abbrev pub write10_valid : CommandReq → Bool
write10_valid req = req.cdb_op_code == 0x2a && (req.protect == 0 && not req.dpo)

-- An R2T for what remains of a transfer, with the next R2TSN.
abbrev pub send_r2t : ℕ → ℕ → DataOutInfo → Session → Session
send_r2t itt lun d s =
    push_task
      (task_send (
        pdu_r2t (record {
          itt = itt;
          ttt = itt;
          lun = lun;
          statsn = s.statsn;
          expcmdsn = s.expcmdsn;
          maxcmdsn = s.maxcmdsn;
          offset = sub32 d.total d.remain;
          desired = min d.remain s.mrds;
          r2tsn = d.r2tsn_gen;
        })))
      s

abbrev pub numbered : DataOutInfo → DataOutInfo
numbered d = record d { r2tsn_gen = (next_sn d.r2tsn_gen).1 }

-- The end of WriteHandler::handle: the R2T, and the receive task.
abbrev pub await_data : CommandReq → ℕ → Session → Session
await_data req remain s =
    let d : DataOutInfo = record {
      lba = req.lba;
      total = lba2offset req.transfer_length % 2 ^ 32;
      remain = remain;
      r2tsn_gen = 0;
    } in
    let asked = send_r2t req.itt req.lun d s in
    if s.initial_r2t || leb s.first_burst_length req.dlength
    then record asked { recvinfo = recv_put req.itt (numbered d) asked.recvinfo }
    else record s { recvinfo = recv_put req.itt d s.recvinfo }

-- What follows the push of immediate data.
after_immediate : CommandReq → ℕ → Session → Bool × Session
after_immediate req remain s =
    if remain == 0
    then if req.final then (true, respond req.itt s) else (false, s)
    else (true, await_data req remain s)

-- `WriteHandler::handle`
unfoldable pub handle_write : LbaIndex → CommandReq → Token → Session → Bool × Session
unfolding after_immediate
handle_write ix req token s =
    let remain = lba2offset req.transfer_length % 2 ^ 32 in
    if not req.flag_write || (req.flag_read || not (write10_valid req))
    then (false, s)
    else if ltb s.max_burst_length (lba2offset req.transfer_length)
    then (false, s)
    else elim (s.lun_size req.lun) [
      | none ↦ (false, s)
      | some total ↦
          if leb total req.lba
            || (req.transfer_length == 0 || ltb total (req.lba + req.transfer_length))
          then (false, s)
          else if s.immediate_data
          then elim (front_data_segment token req.lba (offset2lba req.dlength)) [
            | none ↦ (false, s)
            | some ws ↦
                if leb (length s.wcaches) req.lun
                then (false, s)
                else after_immediate req (sub32 remain req.dlength) (store ix req.lun ws s)
          ]
          else (true, await_data req remain s)
    ]

-- A Data-Out PDU.
pub record DataOutReq : Type 0 where
  pub op_code : ℕ
  pub itt : ℕ
  pub lun : ℕ
  pub dlength : ℕ
  pub final : Bool

-- DataOutHandler::handle after the data segment has been stored.
unfoldable pub finish_data_out : DataOutReq → DataOutInfo → Session → Bool × Session
finish_data_out req d s =
    let d' = record d { remain = d.remain - req.dlength } in
    let s' = record s { recvinfo = recv_set req.itt d' s.recvinfo } in
    let answered = respond req.itt s' in
    let asked = send_r2t req.itt req.lun d' s' in
    if ltb d.remain req.dlength
    then (false, s)
    else if not req.final
    then (true, s')
    else if d'.remain == 0
    then (true, record answered { recvinfo = recv_pop req.itt answered.recvinfo })
    else (true, record asked { recvinfo = recv_set req.itt (numbered d') asked.recvinfo })

-- `DataOutHandler::handle`; iSCSI_OP_SCSI_DATA is 0x05.
unfoldable pub handle_data_out : LbaIndex → DataOutReq → Token → Session → Bool × Session
unfolding finish_data_out
handle_data_out ix req token s =
    if not (req.op_code == 0x05) then (false, s) else elim (recv_get req.itt s.recvinfo) [
      | none ↦ (false, s)
      | some d ↦
          elim (front_data_segment token (add64 d.lba (offset2lba (sub32 d.total d.remain)))
            (offset2lba req.dlength)) [
              | none ↦ finish_data_out req d s
              | some ws ↦
                  if leb (length s.wcaches) req.lun
                  then (false, s)
                  else finish_data_out req d (store ix req.lun ws s)
            ]
    ]
