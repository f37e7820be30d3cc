-- ===== src/Commands/Whole.antt =====
-- CommandHandler::handle as a whole.
use sstoraged.Common.{
  ℕ, ◌^◌, ◌≤◌, ◌<◌, ◌≡◌, ap, ◌∙◌, ◌⊎◌, inl, inr, true, false, some, none, List, arith,
}
use sstoraged.Limitter.{make_limitter}
use sstoraged.Limitter.Range.{IsSpread}
use sstoraged.Session.{Session, Token}
use sstoraged.Scsi.{CommandHeader, byte, be32, flag, to_req, accepts}
use sstoraged.Commands.{
  ScsiHandler, report_luns, inquiry, read_capacity, read_capacity16, mode_sense, read_10, write_10,
  maintenance_in, dummy, Surroundings, command_valid, find_handler, call_handler, handle_command,
}
use sstoraged.Commands.Counting.{Entered, count_command-Entered, handle_command-call}
use sstoraged.Commands.Answers.{
  Answered, handle_inquiry-Answered, handle_read_capacity-Answered, handle_read_capacity16-Answered,
  handle_maintenance_in-Answered, handle_dummy-Answered,
}
use sstoraged.Commands.Areas.{
  handle_report_luns-Answered, handle_mode_sense-Answered, handle_report_luns_null,
  handle_mode_sense_null,
}

-- The handlers that answer from the target's own state, on a CDB that allocates what a buffer has.
abbrev pub HasArea : ScsiHandler → CommandHeader → Type 0
HasArea report_luns h = be32 h.scb 6 ≤ 131024
HasArea mode_sense h = (0 < byte h.scb 4) × (byte h.scb 4 < 256)
HasArea read_10 h = ⊥
HasArea write_10 h = ⊥
HasArea inquiry h = Unit
HasArea read_capacity h = Unit
HasArea read_capacity16 h = Unit
HasArea maintenance_in h = Unit
HasArea dummy h = Unit

call_handler-Answered :
    (e : Surroundings) (h : CommandHeader) (token : Token) (k : ScsiHandler) (s : Session)
    → HasArea k h
    → Answered (to_req h) s (call_handler e h token k s)
unfolding call_handler
call_handler-Answered e h token report_luns s a =
    handle_report_luns-Answered e.name e.fresh h s e.luns a
call_handler-Answered e h token mode_sense s a =
    handle_mode_sense-Answered e.name e.fresh h s a.0 a.1
call_handler-Answered e h token read_10 s a = absurd a
call_handler-Answered e h token write_10 s a = absurd a
call_handler-Answered e h token inquiry s a = handle_inquiry-Answered e.name e.fresh e.stack h s
call_handler-Answered e h token read_capacity s a =
    handle_read_capacity-Answered e.name e.fresh e.stack h s
call_handler-Answered e h token read_capacity16 s a =
    handle_read_capacity16-Answered e.name e.fresh e.stack h s
call_handler-Answered e h token maintenance_in s a =
    handle_maintenance_in-Answered e.name e.fresh e.stack h s
call_handler-Answered e h token dummy s a = handle_dummy-Answered h s

-- A valid SCSI command for one of the handlers that answer from the target's own state, whose CDB
-- allocates what a buffer has, in a session with numbers of 32 bits and spread limits: the handler
-- returns. ExpCmdSN has advanced by one unless the command is an immediate one, the window then holds
-- a command at least, and of the rest of the session only the tasks and StatSN change: either the
-- handler succeeds, StatSN has counted, and one reply is queued with the tag of the command and the
-- numbers of the session, or it fails and nothing is queued.
pub handle_command-Answered :
    (x1 x2 poolnum : ℕ) (sizes : List ℕ) (e : Surroundings) (h : CommandHeader) (token : Token)
    (s : Session) (k : ScsiHandler)
    → IsSpread x1 x2
    → s.expcmdsn < 2 ^ 32
    → s.maxcmdsn < 2 ^ 32
    → command_valid (to_req h) ≡ true
    → find_handler (byte h.scb 0) ≡ some k
    → HasArea k h
    → (s1 : Session) × (Entered (to_req h) s s1
        × Answered
            (to_req h)
            s1
            (handle_command 144 (make_limitter x1 x2) poolnum sizes e h token s))
handle_command-Answered x1 x2 poolnum sizes e h token s k spread he hm v f a =
    let (s1, (c, n)) = count_command-Entered x1 x2 poolnum sizes (to_req h) s spread he hm in
    (
      s1,
      (
        n,
        rw (handle_command-call 144 (make_limitter x1 x2) poolnum sizes e h token s s1 k v c f)
            (call_handler-Answered e h token k s1 a),
      ),
    )

-- What makes the data segment a null pointer that is written through: REPORT LUNS with an allocation
-- length beyond the free space of a buffer, MODE SENSE of a block descriptor with length 0.
abbrev pub NullArea : CommandHeader → Session → Type 0
NullArea h s =
    ((byte h.scb 0 ≡ 0xa0) × (131024 < be32 h.scb 6))
    ⊎ ((byte h.scb 0 ≡ 0x1a)
        × ((byte h.scb 4 ≡ 0)
            × ((flag (byte h.scb 1) 3 ≡ false)
                × ((size : ℕ) × (s.lun_size (to_req h).lun ≡ some size)))))

call_null :
    (e : Surroundings) (h : CommandHeader) (token : Token) (s : Session)
    → accepts true (to_req h) ≡ true
    → NullArea h s
    → (k : ScsiHandler) × ((find_handler (byte h.scb 0) ≡ some k)
        × (call_handler e h token k s ≡ none))
unfolding find_handler call_handler
call_null e h token s a (inl (o, far)) = (
  report_luns,
  (rw o, handle_report_luns_null e.name e.fresh h s e.luns (ground (arith, o, a)) far),
)
call_null e h token s a (inr (o, (z, (d, (size, l))))) = (
  mode_sense,
  (rw o, handle_mode_sense_null e.name e.fresh h s size (ground (arith, o, a)) z d l),
)

-- A valid command that is a final read and whose allocation length makes the data segment a null
-- pointer: the handler writes through it, and so it ends the target. So it is in every session with
-- numbers of 32 bits and spread limits, whatever the other bytes of the command are.
pub handle_command_null :
    (x1 x2 poolnum : ℕ) (sizes : List ℕ) (e : Surroundings) (h : CommandHeader) (token : Token)
    (s : Session)
    → IsSpread x1 x2
    → s.expcmdsn < 2 ^ 32
    → s.maxcmdsn < 2 ^ 32
    → command_valid (to_req h) ≡ true
    → accepts true (to_req h) ≡ true
    → NullArea h s
    → handle_command 144 (make_limitter x1 x2) poolnum sizes e h token s ≡ none
handle_command_null x1 x2 poolnum sizes e h token s spread he hm v a n =
    let (s1, (c, entered)) = count_command-Entered x1 x2 poolnum sizes (to_req h) s spread he hm in
    let same : s1.lun_size ≡ s.lun_size = ap (λ (t : Session). t.lun_size) entered.kept in
    let (k, (f, z)) = call_null e h token s1 a (rw same n) in
    handle_command-call 144 (make_limitter x1 x2) poolnum sizes e h token s s1 k v c f ∙ z
