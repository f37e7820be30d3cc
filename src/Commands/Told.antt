-- ===== src/Commands/Told.antt =====
-- What READ CAPACITY tells, and the commands beyond it.
use sstoraged.Common.{
  ℕ, ◌+◌, ◌-◌, ◌*◌, ◌^◌, ◌≤◌, ◌<◌, ◌≡◌, refl, ◌∙◌, ap, true, false, not, ◌&&◌, ◌==◌, ltb, Option,
  some, List, length, min, arith,
}
use sstoraged.Cache.{LbaIndex}
use sstoraged.Session.{
  Session, CommandReq, DataReply, Token, task_send, pdu_data_reply, push_task, advance_statsn,
}
use sstoraged.Read.{handle_read}
use sstoraged.Transfer.{handle_write}
use sstoraged.DataInBuffer.{new_generator, reserve_data_segment, set_residual_count, serialize}
use sstoraged.Scsi.{
  start_reply, good, overlay, CommandHeader, byte, be32, flag, to_req, accepts, reply_struct,
}
use sstoraged.Scsi.Capacity.{last_lba, capacity_data, handle_read_capacity}
use sstoraged.Commands.Answers.{reserve-new}

-- READ(10) and WRITE(10) of a range that ends beyond the volume fail, and change nothing.
handle_read-refuses :
    (ix : LbaIndex) (fuel : ℕ) (req : CommandReq) (s : Session) (total : ℕ)
    → s.lun_size req.lun ≡ some total
    → total < req.lba + req.transfer_length
    → handle_read ix fuel req s ≡ some (false, s)
unfolding handle_read
handle_read-refuses ix fuel req s total l h =
    let far : ltb total (req.lba + req.transfer_length) ≡ true = ground arith in
    rw (l, far) (ground arith)

handle_write-refuses :
    (ix : LbaIndex) (req : CommandReq) (token : Token) (s : Session) (total : ℕ)
    → s.lun_size req.lun ≡ some total
    → total < req.lba + req.transfer_length
    → handle_write ix req token s ≡ (false, s)
unfolding handle_write
handle_write-refuses ix req token s total l h =
    let far : ltb total (req.lba + req.transfer_length) ≡ true = ground arith in
    rw (l, far) (ground arith)

-- The one reply of a handler whose data segment is a struct.
reply_struct-area :
    (name : ℕ) (fresh stack : ℕ → ℕ) (status : ℕ) (fields : List (Option ℕ)) (h : CommandHeader)
    (req : CommandReq) (s : Session)
    → 0 < length fields
    → length fields ≤ 131024
    → (r : DataReply) × ((reply_struct name fresh stack status fields h req s
          ≡ some (true, push_task (task_send (pdu_data_reply r)) (advance_statsn s)))
        × (r.area ≡ overlay stack 0 fields fresh))
unfolding reply_struct
reply_struct-area name fresh stack status fields h req s p q =
    let reserved = (reserve_data_segment (length fields) (new_generator name)).1 in
    let g = set_residual_count h.expdatalen reserved.dlength reserved in
    (
      record (start_reply name fresh status req s) {
        gen = record g { cbuf = serialize g };
        area = overlay stack 0 fields fresh;
      },
      (rw (reserve-new name (length fields) p q), refl),
    )

-- The two numbers of READ CAPACITY(10) data.
abbrev pub lba_told : (ℕ → ℕ) → ℕ
lba_told a = a 0 * 2 ^ 24 + a 1 * 2 ^ 16 + a 2 * 2 ^ 8 + a 3

abbrev pub unit_told : (ℕ → ℕ) → ℕ
unit_told a = a 4 * 2 ^ 24 + a 5 * 2 ^ 16 + a 6 * 2 ^ 8 + a 7

capacity_data-told :
    (stack fresh : ℕ → ℕ) (total : ℕ)
    → 0 < total
    → total < 2 ^ 64
    → (lba_told (overlay stack 0 (capacity_data total) fresh) ≡ min (total - 1) (2 ^ 32 - 1))
      × (unit_told (overlay stack 0 (capacity_data total) fresh) ≡ 512)
unfolding overlay
capacity_data-told stack fresh total p q =
    let last : last_lba total ≡ min (total - 1) (2 ^ 32 - 1) = ground arith in
    (omega (arith, last), omega arith)

handle_read_capacity-reply :
    (name : ℕ) (fresh stack : ℕ → ℕ) (h : CommandHeader) (s : Session) (total : ℕ)
    → accepts (byte h.scb 0 == 0x25 && not (flag (byte h.scb 8) 0)) (to_req h) ≡ true
    → be32 h.scb 2 ≡ 0
    → s.lun_size (to_req h).lun ≡ some total
    → handle_read_capacity name fresh stack h s
      ≡ reply_struct name fresh stack good (capacity_data total) h (to_req h) s
unfolding handle_read_capacity
handle_read_capacity-reply name fresh stack h s total a z l = rw (a, z, l)

-- READ CAPACITY(10) of a volume that has blocks: a valid request for LBA 0 succeeds. Its one reply tells
-- the last LBA of the volume, or 2 ^ 32 - 1 where that does not fit in 32 bits, and blocks of 512 bytes;
-- and every READ(10) and WRITE(10) that follows and ends beyond the volume fails and changes nothing.
pub handle_read_capacity-told :
    (name : ℕ) (fresh stack : ℕ → ℕ) (h : CommandHeader) (s : Session) (total : ℕ) (ix : LbaIndex)
    (fuel : ℕ) (req : CommandReq) (token : Token)
    → accepts (byte h.scb 0 == 0x25 && not (flag (byte h.scb 8) 0)) (to_req h) ≡ true
    → be32 h.scb 2 ≡ 0
    → s.lun_size (to_req h).lun ≡ some total
    → 0 < total
    → total < 2 ^ 64
    → req.lun ≡ (to_req h).lun
    → total < req.lba + req.transfer_length
    → (r : DataReply) × (let s' = push_task (task_send (pdu_data_reply r)) (advance_statsn s) in
        (handle_read_capacity name fresh stack h s ≡ some (true, s'))
        × ((lba_told r.area ≡ min (total - 1) (2 ^ 32 - 1))
            × ((unit_told r.area ≡ 512)
                × ((handle_read ix fuel req s' ≡ some (false, s'))
                    × (handle_write ix req token s' ≡ (false, s'))))))
handle_read_capacity-told name fresh stack h s total ix fuel req token a z l p q same far =
    let fields = capacity_data total in
    let (r, (run, area)) =
      reply_struct-area name fresh stack 0 fields h (to_req h) s (omega arith) (omega arith) in
    let s' = push_task (task_send (pdu_data_reply r)) (advance_statsn s) in
    let told = capacity_data-told stack fresh total p q in
    let lun : s'.lun_size req.lun ≡ some total = rw same l in
    (
      r,
      (
        handle_read_capacity-reply name fresh stack h s total a z l ∙ run,
        (
          ap lba_told area ∙ told.0,
          (
            ap unit_told area ∙ told.1,
            (
              handle_read-refuses ix fuel req s' total lun far,
              handle_write-refuses ix req token s' total lun far,
            ),
          ),
        ),
      ),
    )
