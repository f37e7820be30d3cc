-- ===== src/Commands/Answers.antt =====
-- What the handlers that answer from the target's own state do with a command: no more than one reply,
-- which carries the numbers of the session. READ(10) and WRITE(10) are in Read and Transfer.
use sstoraged.Common.{
  ℕ, ◌≤◌, ◌<◌, ◌≡◌, refl, ◌⊎◌, inl, inr, Bool, true, false, not, ◌&&◌, ltb, ◌==◌, if◌then◌else◌,
  if_cases, Option, none, some, List, length, arith,
}
use sstoraged.Buffers.{step_forward_tail}
use sstoraged.DataInBuffer.{new_generator, reserve_data_segment}
use sstoraged.Session.{
  Session, CommandReq, Task, pdu_data_reply, pdu_scsi_rsp, task_send, push_task, advance_statsn,
}
use sstoraged.Scsi.{CommandHeader, byte, be16, be32, be64, flag, to_req, accepts, reply_struct}
use sstoraged.Scsi.Inquiry.{inquiry_page, handle_inquiry}
use sstoraged.Scsi.Sense.{fixed_sense, sense_error, handle_maintenance_in, handle_dummy}
use sstoraged.Scsi.Capacity.{
  capacity_data, capacity16_data, tell, handle_read_capacity, handle_read_capacity16,
}

-- A reply to `req` with the numbers of the session.
abbrev pub Replies : CommandReq → Session → Task → Type 0
Replies req s (task_send (pdu_data_reply r)) =
    (r.itt ≡ req.itt)
    × ((r.statsn ≡ s.statsn) × ((r.expcmdsn ≡ s.expcmdsn) × (r.maxcmdsn ≡ s.maxcmdsn)))
Replies req s (task_send (pdu_scsi_rsp r)) =
    (r.itt ≡ req.itt)
    × ((r.statsn ≡ s.statsn) × ((r.expcmdsn ≡ s.expcmdsn) × (r.maxcmdsn ≡ s.maxcmdsn)))
Replies req s _ = ⊥

-- A handler that returns: it succeeds with one reply and has counted StatSN, or it fails with none.
abbrev pub Answered : CommandReq → Session → Option (Bool × Session) → Type 0
Answered req s none = ⊥
Answered req s (some (true, s')) =
    (t : Task) × (Replies req s t × (s' ≡ push_task t (advance_statsn s)))
Answered req s (some (false, s')) = (s' ≡ s) ⊎ (s' ≡ advance_statsn s)

-- Reservations on a new buffer of at most 131024 bytes succeed.
pub reserve-new :
    (name n : ℕ) → 0 < n → n ≤ 131024 → (reserve_data_segment n (new_generator name)).0 ≡ true
unfolding reserve_data_segment step_forward_tail
reserve-new name n h k = ground arith

reply_struct-Answered :
    (name : ℕ) (fresh stack : ℕ → ℕ) (status : ℕ) (fields : List (Option ℕ)) (h : CommandHeader)
    (req : CommandReq) (s : Session)
    → 0 < length fields
    → length fields ≤ 131024
    → Answered req s (reply_struct name fresh stack status fields h req s)
unfolding reply_struct
reply_struct-Answered name fresh stack status fields h req s p q =
    rw (reserve-new name (length fields) p q) (_, ((refl, (refl, (refl, refl))), refl))

-- The pages of INQUIRY are not empty and fit in a buffer.
Fits : Option (List (Option ℕ)) → Type 0
Fits none = Unit
Fits (some l) = (0 < length l) × (length l ≤ 36)

inquiry_page-Fits : (evpd : Bool) (code : ℕ) → Fits (inquiry_page evpd code)
unfolding Fits
inquiry_page-Fits evpd code =
    if_cases Fits (not evpd) _ _ (λ _. omega arith)
      (λ _.
        if_cases Fits (code == 0x00) _ _ (λ _. omega arith)
          (λ _.
            if_cases Fits (code == 0x80) _ _ (λ _. omega arith)
              (λ _. if_cases Fits (code == 0x83) _ _ (λ _. omega arith) (λ _. tt))))

module _ (name : ℕ) (fresh stack : ℕ → ℕ) (h : CommandHeader) (s : Session) where
  -- What a handler does with the page that it looks up.
  answer_page-Answered :
      (alloc : ℕ) (p : Option (List (Option ℕ)))
      → Fits p
      → Answered (to_req h) s (elim p [
        | none ↦ some (false, advance_statsn s)
        | some fields ↦
            if ltb alloc (length fields)
            then some (false, advance_statsn s)
            else reply_struct name fresh stack 0 fields h (to_req h) s
      ])
  unfolding Fits
  answer_page-Answered alloc none f = inr refl
  answer_page-Answered alloc (some fields) f =
      if_cases (Answered (to_req h) s) (ltb alloc (length fields)) _ _ (λ _. inr refl)
        (λ _.
          reply_struct-Answered name fresh stack 0 fields h (to_req h) s f.0 (omega (arith, f.1)))

  pub handle_inquiry-Answered : Answered (to_req h) s (handle_inquiry name fresh stack h s)
  unfolding handle_inquiry
  handle_inquiry-Answered =
      if_cases (Answered (to_req h) s)
        (accepts (byte h.scb 0 == 0x12 && not (ltb (be16 h.scb 3) 16)) (to_req h)) _ _
        (λ _.
          answer_page-Answered (be16 h.scb 3) (inquiry_page (flag (byte h.scb 1) 0) (byte h.scb 2))
            (inquiry_page-Fits (flag (byte h.scb 1) 0) (byte h.scb 2)))
        (λ _. inl refl)

  -- READ CAPACITY, of the total size that is looked up.
  told-Answered :
      (data_of : ℕ → List (Option ℕ)) (total : Option ℕ)
      → ((n : ℕ) → (0 < length (data_of n)) × (length (data_of n) ≤ 32))
      → Answered (to_req h) s (elim total [
        | none ↦ some (false, advance_statsn s)
        | some n ↦ reply_struct name fresh stack 0 (data_of n) h (to_req h) s
      ])
  told-Answered data_of none f = inr refl
  told-Answered data_of (some n) f =
      reply_struct-Answered name fresh stack 0 (data_of n) h (to_req h) s (f n).0
        (omega (arith, (f n).1))

  tell-Answered :
      (data_of : ℕ → List (Option ℕ)) (lba : ℕ)
      → ((n : ℕ) → (0 < length (data_of n)) × (length (data_of n) ≤ 32))
      → Answered (to_req h) s (tell name fresh stack data_of lba h s)
  tell-Answered data_of lba f =
      if_cases (Answered (to_req h) s) (lba == 0) _ _
        (λ _. told-Answered data_of (s.lun_size (to_req h).lun) f)
        (λ _.
          reply_struct-Answered name fresh stack 1 fixed_sense h (to_req h) s (omega arith)
            (omega arith))

  pub handle_read_capacity-Answered :
      Answered (to_req h) s (handle_read_capacity name fresh stack h s)
  unfolding handle_read_capacity
  handle_read_capacity-Answered =
      if_cases (Answered (to_req h) s)
        (accepts (byte h.scb 0 == 0x25 && not (flag (byte h.scb 8) 0)) (to_req h)) _ _
        (λ _. tell-Answered capacity_data (be32 h.scb 2) (λ n. (omega arith, omega arith)))
        (λ _. inl refl)

  pub handle_read_capacity16-Answered :
      Answered (to_req h) s (handle_read_capacity16 name fresh stack h s)
  unfolding handle_read_capacity16
  handle_read_capacity16-Answered =
      if_cases (Answered (to_req h) s)
        (accepts (byte h.scb 0 == 0x9e && not (flag (byte h.scb 18) 0)) (to_req h)) _ _
        (λ _. tell-Answered capacity16_data (be64 h.scb 2) (λ n. (omega arith, omega arith)))
        (λ _. inl refl)

  pub handle_maintenance_in-Answered :
      Answered (to_req h) s (handle_maintenance_in name fresh stack h s)
  unfolding handle_maintenance_in
  handle_maintenance_in-Answered =
      if_cases (Answered (to_req h) s) (accepts (byte h.scb 0 == 0xa3) (to_req h)) _ _
        (λ _.
          reply_struct-Answered name fresh stack 1 sense_error h (to_req h) s (omega arith)
            (omega arith))
        (λ _. inl refl)

pub handle_dummy-Answered :
    (h : CommandHeader) (s : Session) → Answered (to_req h) s (handle_dummy h s)
unfolding handle_dummy to_req
handle_dummy-Answered h s =
    if_cases (Answered (to_req h) s) (to_req h).final _ _
      (λ _. (_, ((refl, (refl, (refl, refl))), refl))) (λ _. inl refl)
