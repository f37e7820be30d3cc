-- ===== src/Scsi/Sense.antt =====
-- The handlers that answer whatever is asked: MAINTENANCE IN (src/scsi/maintenancein.cpp) with sense
-- data, and the dummy handler (src/scsi/dummy.cpp) with a SCSI response.
use sstoraged.Common.{ℕ, Bool, true, false, ◌==◌, if◌then◌else◌, Option, none, some, List, [], ◌∷◌}
use sstoraged.Session.{Session, advance_statsn, task_send, pdu_scsi_rsp, push_task}
use sstoraged.Scsi.{CommandHeader, byte, to_req, accepts, unset, check_condition, reply_struct}

-- `FixedSenseParam` of include/scsi/generic.h: ILLEGAL REQUEST, invalid field in CDB.
abbrev pub fixed_sense : List (Option ℕ)
fixed_sense =
    some 0x70
    ∷ (some 0
        ∷ (some 0x05
            ∷ (some 0
                ∷ (some 0
                    ∷ (some 0
                        ∷ (some 0
                            ∷ (some 6
                                ∷ (some 0
                                    ∷ (some 0
                                        ∷ (some 0
                                            ∷ (some 0 ∷ (some 0x24 ∷ (some 0x00 ∷ [])))))))))))))

-- `SenseErrorHeader`
abbrev pub sense_error : List (Option ℕ)
sense_error =
    some 0x70
    ∷ (none ∷ (some 0x05 ∷ unset 4 (some 10 ∷ unset 4 (some 0x24 ∷ (some 0x00 ∷ unset 4 [])))))

-- `MaintenanceInHandler::handle`. `valid` only logs a wrong service action.
unfoldable pub handle_maintenance_in :
    ℕ → (ℕ → ℕ) → (ℕ → ℕ) → CommandHeader → Session → Option (Bool × Session)
unfolding reply_struct to_req
handle_maintenance_in name fresh stack h s =
    if accepts (byte h.scb 0 == 0xa3) (to_req h)
    then reply_struct name fresh stack check_condition sense_error h (to_req h) s
    else some (false, s)

-- `DummyHandler::handle`: a SCSI response, GOOD; the data length of a response is 0.
unfoldable pub handle_dummy : CommandHeader → Session → Option (Bool × Session)
unfolding to_req
handle_dummy h s =
    if (to_req h).final
    then some (
      true,
      push_task
          (task_send (
            pdu_scsi_rsp (record {
              itt = h.itt;
              residual_count = h.expdatalen;
              statsn = s.statsn;
              expcmdsn = s.expcmdsn;
              maxcmdsn = s.maxcmdsn;
            })))
          (advance_statsn s),
    )
    else some (false, s)
