-- ===== src/Commands.antt =====
-- src/iscsi/command.cpp: CommandHandler, which counts a SCSI command and hands it to the handler of its
-- operation code. A write through a null pointer, fuel that runs out and a division by zero are `none`.
pub mod Counting
pub mod Answers
pub mod Areas
pub mod Told
pub mod Whole
pub mod Reading
use sstoraged.Common.{
  ℕ, Bool, true, false, not, ◌&&◌, ◌||◌, ◌==◌, if◌then◌else◌, Option, none, some, List,
}
use sstoraged.Cache.{LbaIndex}
use sstoraged.Limitter.{LinearLimitter, PoolState, Window, advance_cmdsns}
use sstoraged.Session.{Session, CommandReq, Token}
use sstoraged.Read.{handle_read}
use sstoraged.Transfer.{handle_write}
use sstoraged.Scsi.{CommandHeader, byte, to_req}
use sstoraged.Scsi.Inquiry.{handle_inquiry}
use sstoraged.Scsi.Capacity.{handle_read_capacity, handle_read_capacity16}
use sstoraged.Scsi.Luns.{handle_report_luns}
use sstoraged.Scsi.ModeSense.{handle_mode_sense}
use sstoraged.Scsi.Sense.{handle_maintenance_in, handle_dummy}

-- `CommandParser::valid`
abbrev pub command_valid : CommandReq → Bool
command_valid req = req.op_code == 0x01 && not (req.flag_read && req.flag_write)

-- The map of the constructor.
pub data ScsiHandler : Type 0 where
  report_luns inquiry read_capacity read_capacity16 mode_sense : ScsiHandler
  read_10 write_10 maintenance_in dummy : ScsiHandler

-- TEST UNIT READY, VERIFY, SYNCHRONIZE CACHE, START STOP, REASSIGN BLOCKS, RESERVE and RELEASE.
abbrev pub is_dummy : ℕ → Bool
is_dummy op =
    op == 0x00
    || (op == 0x2f || (op == 0x35 || (op == 0x1b || (op == 0x07 || (op == 0x16 || op == 0x17)))))

unfoldable pub find_handler : ℕ → Option ScsiHandler
find_handler op =
    if op == 0xa0
    then some report_luns
    else if op == 0x12
    then some inquiry
    else if op == 0x25
    then some read_capacity
    else if op == 0x9e
    then some read_capacity16
    else if op == 0x1a
    then some mode_sense
    else if op == 0x28
    then some read_10
    else if op == 0x2a
    then some write_10
    else if op == 0xa3
    then some maintenance_in
    else if is_dummy op
    then some dummy
    else none

-- What a handler meets: the index of the caches, the name and the bytes of a new buffer, the bytes of
-- the stack, and how many LUNs the initiator has.
pub record Surroundings : Type 1 where
  pub index : LbaIndex
  pub name : ℕ
  pub fresh : ℕ → ℕ
  pub stack : ℕ → ℕ
  pub luns : ℕ

-- The fuel of READ(10) is the number of its blocks.
unfoldable pub call_handler :
    Surroundings → CommandHeader → Token → ScsiHandler → Session → Option (Bool × Session)
call_handler e h token report_luns s = handle_report_luns e.name e.fresh e.luns h s
call_handler e h token inquiry s = handle_inquiry e.name e.fresh e.stack h s
call_handler e h token read_capacity s = handle_read_capacity e.name e.fresh e.stack h s
call_handler e h token read_capacity16 s = handle_read_capacity16 e.name e.fresh e.stack h s
call_handler e h token mode_sense s = handle_mode_sense e.name e.fresh h s
call_handler e h token read_10 s = handle_read e.index (to_req h).transfer_length (to_req h) s
call_handler e h token write_10 s = some (handle_write e.index (to_req h) token s)
call_handler e h token maintenance_in s = handle_maintenance_in e.name e.fresh e.stack h s
call_handler e h token dummy s = handle_dummy h s

-- The pool and the sizes of the caches at the time of a request.
module _ (fuel : ℕ) (limitter : LinearLimitter) (poolnum : ℕ) (sizes : List ℕ) where
  abbrev pub enter : Session → Option Window → Option Session
  enter s none = none
  enter s (some w) = some (record s { expcmdsn = w.expcmdsn; maxcmdsn = w.maxcmdsn })

  -- The call of advanceCMDSNs, of a normal session.
  unfoldable pub count_command : CommandReq → Session → Option Session
  count_command req s =
      if req.immediate_cmd
      then some s
      else enter s (advance_cmdsns fuel limitter false poolnum sizes s.expcmdsn s.maxcmdsn)

  -- `CommandHandler::handle`
  unfoldable pub handle_command :
      Surroundings → CommandHeader → Token → Session → Option (Bool × Session)
  unfolding to_req count_command find_handler call_handler
  handle_command e h token s =
      if not (command_valid (to_req h))
      then some (false, s)
      else elim (count_command (to_req h) s) [
        | none ↦ none
        | some s' ↦ elim (find_handler (byte h.scb 0)) [
          | none ↦ some (false, s')
          | some handler ↦ call_handler e h token handler s'
        ]
      ]
