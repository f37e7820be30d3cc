-- ===== src/Commands/Areas.antt =====
-- The handlers that reserve as many bytes as the CDB allocates, REPORT LUNS and MODE SENSE: what they
-- answer where the reservation succeeds, and what a null data segment leads to.
use sstoraged.Common.{
  ℕ, ◌%◌, ◌^◌, ◌≤◌, ◌<◌, ◌≡◌, refl, ◌⊎◌, inl, inr, Bool, true, false, not, ◌&&◌, ltb, ◌==◌,
  if◌then◌else◌, if_cases, Option, none, some, arith, min,
}
use sstoraged.DataInBuffer.{DataInGenerator, new_generator, reserve_data_segment, reset_dlength}
use sstoraged.Session.{Session, advance_statsn}
use sstoraged.Scsi.{CommandHeader, byte, be32, flag, to_req, accepts, good, start_reply}
use sstoraged.Scsi.Luns.{handle_report_luns}
use sstoraged.Scsi.ModeSense.{ModeData, mode_data, finish_mode, null_mode, handle_mode_sense}
use sstoraged.Commands.Answers.{Answered, reserve-new}

-- Reservations on a new buffer of more than 131024 bytes, and of none, fail.
reserve-new_fails :
    (name n : ℕ) → (n ≡ 0) ⊎ (131024 < n) → (reserve_data_segment n (new_generator name)).0 ≡ false
unfolding reserve_data_segment
reserve-new_fails name n h = ground arith

module _ (name : ℕ) (fresh : ℕ → ℕ) (h : CommandHeader) (s : Session) where
  pub handle_report_luns-Answered :
      (luns : ℕ)
      → be32 h.scb 6 ≤ 131024
      → Answered (to_req h) s (handle_report_luns name fresh luns h s)
  unfolding handle_report_luns
  handle_report_luns-Answered luns fits =
      if_cases (Answered (to_req h) s)
        (accepts (byte h.scb 0 == 0xa0 && not (ltb (be32 h.scb 6) 16)) (to_req h)) _ _
        (λ e.
          let some_bytes : 0 < be32 h.scb 6 = ground arith in
          rw (reserve-new name (be32 h.scb 6) some_bytes fits) (
            if_cases (Answered (to_req h) s) (luns == 0) _ _ (λ _. inr refl)
              (λ _. (_, ((refl, (refl, (refl, refl))), refl)))))
        (λ _. inl refl)

  finish_mode-Answered :
      (alloc : ℕ) (g : DataInGenerator) (d : ModeData)
      → Answered
          (to_req h)
          s
          (some (finish_mode alloc h (start_reply name fresh good (to_req h) s) g s d))
  unfolding finish_mode
  finish_mode-Answered alloc g d =
      if_cases (λ (x : Bool × Session). Answered (to_req h) s (some x))
        (reset_dlength (min d.total alloc) g).0 _ _ (λ _. (_, ((refl, (refl, (refl, refl))), refl)))
        (λ _. inr refl)

  -- Of the data that is made, and of the size that is looked up.
  made-Answered :
      (alloc : ℕ) (g : DataInGenerator) (m : Option ModeData)
      → Answered (to_req h) s (elim m [
        | none ↦ some (false, advance_statsn s)
        | some d ↦ some (finish_mode alloc h (start_reply name fresh good (to_req h) s) g s d)
      ])
  made-Answered alloc g none = inr refl
  made-Answered alloc g (some d) = finish_mode-Answered alloc g d

  sized-Answered :
      (total : Option ℕ)
      → 0 < byte h.scb 4
      → byte h.scb 4 < 256
      → Answered (to_req h) s (elim total [
        | none ↦ some (false, advance_statsn s)
        | some size ↦
            if (reserve_data_segment (byte h.scb 4) (new_generator name)).0
            then elim (mode_data
                (byte h.scb 4)
                (flag (byte h.scb 1) 3)
                (byte h.scb 2 % 2 ^ 6)
                size
                fresh) [
                  | none ↦ some (false, advance_statsn s)
                  | some d ↦ some (
                      finish_mode
                        (byte h.scb 4)
                        h
                        (start_reply name fresh good (to_req h) s)
                        (reserve_data_segment (byte h.scb 4) (new_generator name)).1
                        s
                        d)
                ]
            else null_mode (flag (byte h.scb 1) 3) (byte h.scb 2 % 2 ^ 6) s
      ])
  sized-Answered none a b = inr refl
  sized-Answered (some size) a b = rw (reserve-new name (byte h.scb 4) a (omega arith)) (
      made-Answered (byte h.scb 4) (reserve_data_segment (byte h.scb 4) (new_generator name)).1
        (mode_data (byte h.scb 4) (flag (byte h.scb 1) 3) (byte h.scb 2 % 2 ^ 6) size fresh))

  pub handle_mode_sense-Answered :
      0 < byte h.scb 4
      → byte h.scb 4 < 256
      → Answered (to_req h) s (handle_mode_sense name fresh h s)
  unfolding handle_mode_sense
  handle_mode_sense-Answered a b =
      if_cases (Answered (to_req h) s) (accepts (byte h.scb 0 == 0x1a) (to_req h)) _ _
        (λ _. sized-Answered (s.lun_size (to_req h).lun) a b) (λ _. inl refl)

  -- REPORT LUNS that allocates more than a buffer has behind the header.
  pub handle_report_luns_null :
      (luns : ℕ)
      → accepts (byte h.scb 0 == 0xa0) (to_req h) ≡ true
      → 131024 < be32 h.scb 6
      → handle_report_luns name fresh luns h s ≡ none
  unfolding handle_report_luns
  handle_report_luns_null luns e far =
      let ok : accepts (byte h.scb 0 == 0xa0 && not (ltb (be32 h.scb 6) 16)) (to_req h) ≡ true =
        ground arith in
      rw (ok, reserve-new_fails name (be32 h.scb 6) (inr far))

  -- MODE SENSE that allocates nothing and wants the block descriptor.
  pub handle_mode_sense_null :
      (size : ℕ)
      → accepts (byte h.scb 0 == 0x1a) (to_req h) ≡ true
      → byte h.scb 4 ≡ 0
      → flag (byte h.scb 1) 3 ≡ false
      → s.lun_size (to_req h).lun ≡ some size
      → handle_mode_sense name fresh h s ≡ none
  unfolding handle_mode_sense
  handle_mode_sense_null size e z d l = rw (e, l, reserve-new_fails name (byte h.scb 4) (inl z), d)
