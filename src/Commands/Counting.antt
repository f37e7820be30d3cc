-- ===== src/Commands/Counting.antt =====
-- The command numbers: what CommandHandler::handle does before it calls a handler.
use sstoraged.Common.{
  ℕ, ◌+◌, ◌%◌, ◌^◌, ◌≤◌, ◌<◌, ◌≡◌, refl, true, false, if◌then◌else◌, Bool-cases, inl, inr, some,
  List, arith,
}
use sstoraged.Limitter.{LinearLimitter, make_limitter, get_cmd_queue}
use sstoraged.Limitter.Range.{IsSpread}
use sstoraged.Limitter.CmdWindow.{advance_cmdsns_total}
use sstoraged.Session.{Session, CommandReq, Token}
use sstoraged.Scsi.{CommandHeader, byte, to_req}
use sstoraged.Commands.{
  Surroundings, ScsiHandler, command_valid, count_command, find_handler, call_handler,
  handle_command,
}

-- `s1` is `s` after the command has been counted: ExpCmdSN has advanced unless the command is an
-- immediate one, the window then holds a command at least, and all else is as it was.
pub record Entered (req : CommandReq) (s s1 : Session) : Type 0 where
  pub kept : s1 ≡ record s { expcmdsn = s1.expcmdsn; maxcmdsn = s1.maxcmdsn }
  pub counted : s1.expcmdsn ≡ (if req.immediate_cmd then s.expcmdsn else (s.expcmdsn + 1) % 2 ^ 32)
  pub window : req.immediate_cmd ≡ false → 1 ≤ get_cmd_queue s1.expcmdsn s1.maxcmdsn

pub count_command-Entered :
    (x1 x2 poolnum : ℕ) (sizes : List ℕ) (req : CommandReq) (s : Session)
    → IsSpread x1 x2
    → s.expcmdsn < 2 ^ 32
    → s.maxcmdsn < 2 ^ 32
    → (s1 : Session) × ((count_command 144 (make_limitter x1 x2) poolnum sizes req s ≡ some s1)
        × Entered req s s1)
unfolding count_command
count_command-Entered x1 x2 poolnum sizes req s spread he hm = elim (Bool-cases req.immediate_cmd) [
  | inl e ↦ (
    s,
    (rw e, record { kept = refl; counted = rw e; window = λ z. absurd (ground (arith, e, z)) }),
  )
  | inr e ↦
      let (want, w, ended, asked, a) =
        advance_cmdsns_total x1 x2 false poolnum sizes s.expcmdsn s.maxcmdsn spread he hm in
      (
        record s { expcmdsn = w.expcmdsn; maxcmdsn = w.maxcmdsn },
        (
          rw (e, ended),
          record {
            kept = refl;
            counted = rw e a.exp_next;
            window = λ _. omega (arith, a.queue, a.exp_next, asked.some_want);
          },
        ),
      )
]

-- What is left of a valid command after that is its handler's.
pub handle_command-call :
    (fuel : ℕ) (limitter : LinearLimitter) (poolnum : ℕ) (sizes : List ℕ) (e : Surroundings)
    (h : CommandHeader) (token : Token) (s s1 : Session) (k : ScsiHandler)
    → command_valid (to_req h) ≡ true
    → count_command fuel limitter poolnum sizes (to_req h) s ≡ some s1
    → find_handler (byte h.scb 0) ≡ some k
    → handle_command fuel limitter poolnum sizes e h token s ≡ call_handler e h token k s1
unfolding handle_command
handle_command-call fuel limitter poolnum sizes e h token s s1 k v c f = rw (v, c, f)
