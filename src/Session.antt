-- ===== src/Session.antt =====
-- The part of a session (include/session.h, src/session.cpp) that the SCSI handlers share: what they
-- read of a request, the PDUs they generate (include/iscsi/datain.h, command.h, r2t.h), the tasks
-- that they queue (include/task.h) and the state that they change.
-- A handler touches one connection, the one that the request came in on; `statsn` is its counter.
use sstoraged.Common.{
  ℕ, zero, suc, ◌+◌, Bool, ◌==◌, if◌then◌else◌, Option, none, some, List, [], ◌∷◌, ◌++◌,
}
use sstoraged.Cache.{WriteSegment, WriteCache, LbaIndex, push}
use sstoraged.Counter.{next_sn}
use sstoraged.DataInBuffer.{DataInGenerator}

-- A SCSI command request and its CDB, of READ(10) or WRITE(10): the fields that the handlers read.
-- Each field is a value of the getter of its name.
pub record CommandReq : Type 0 where
  pub op_code : ℕ
  pub flag_read : Bool
  pub flag_write : Bool
  pub final : Bool
  pub immediate_cmd : Bool
  pub itt : ℕ
  pub lun : ℕ
  pub dlength : ℕ
  pub cdb_op_code : ℕ
  pub protect : ℕ
  pub dpo : Bool
  pub lba : ℕ
  pub transfer_length : ℕ

-- `DataInHeader` and the DataSN counter of its generator. `final` is FINAL with STATUS (GOOD).
pub record DataIn : Type 0 where
  pub itt : ℕ
  pub dlength : ℕ
  pub final : Bool
  pub statsn : ℕ
  pub expcmdsn : ℕ
  pub maxcmdsn : ℕ
  pub datasn : ℕ
  pub offset : ℕ
  pub datasn_gen : ℕ

-- `SCSIRspHeader`, FINAL and GOOD. The underflow flag is set where the residual count is not 0.
pub record ScsiRsp : Type 0 where
  pub itt : ℕ
  pub residual_count : ℕ
  pub statsn : ℕ
  pub expcmdsn : ℕ
  pub maxcmdsn : ℕ

-- `R2THeader`
pub record R2t : Type 0 where
  pub itt : ℕ
  pub ttt : ℕ
  pub lun : ℕ
  pub statsn : ℕ
  pub expcmdsn : ℕ
  pub maxcmdsn : ℕ
  pub offset : ℕ
  pub desired : ℕ
  pub r2tsn : ℕ

-- A Data-In PDU of a small SCSI handler: `DataInHeader` with FINAL and STATUS, its generator, and the
-- bytes of the data segment by their offsets.
pub record DataReply : Type 0 where
  pub itt : ℕ
  pub cmd_status : ℕ
  pub statsn : ℕ
  pub expcmdsn : ℕ
  pub maxcmdsn : ℕ
  pub gen : DataInGenerator
  pub area : ℕ → ℕ

pub data Pdu : Type 0 where
  pdu_data_in : DataIn → Pdu
  pdu_scsi_rsp : ScsiRsp → Pdu
  pdu_r2t : R2t → Pdu
  pdu_data_reply : DataReply → Pdu

-- The tasks: `SendTask` of one PDU, `SendfileTask(lv, lba, length)`, `SendCacheTask(ws, lba, length)`,
-- `TCPCorkTask` and `TCPUncorkTask`.
pub data Task : Type 0 where
  task_send : Pdu → Task
  task_sendfile : ℕ → ℕ → Task
  task_send_cache : WriteSegment → ℕ → ℕ → Task
  task_cork task_uncork : Task

-- `DataOutInfo`
pub record DataOutInfo : Type 0 where
  pub lba : ℕ
  pub total : ℕ
  pub remain : ℕ
  pub r2tsn_gen : ℕ

-- A receive buffer (`CommonBuf`), by a name, and the token in front: where its header begins in the
-- first buffer, the lengths that the header holds, and the buffers, of which there is at least one.
pub record Cbuf : Type 0 where
  pub name : ℕ
  pub size : ℕ

pub record Token : Type 0 where
  pub bhs_offset : ℕ
  pub hlength : ℕ
  pub dlength : ℕ
  pub first : Cbuf
  pub others : List Cbuf

-- The session. `lun_size` is `initiator->getLUN(id)->getTotalSize()`; `notified` are the writers that
-- were sent an event, by their LUN.
pub record Session : Type 0 where
  pub lun_size : ℕ → Option ℕ
  pub mrds : ℕ
  pub max_burst_length : ℕ
  pub first_burst_length : ℕ
  pub immediate_data : Bool
  pub initial_r2t : Bool
  pub expcmdsn : ℕ
  pub maxcmdsn : ℕ
  pub statsn : ℕ
  pub wcaches : List WriteCache
  pub notified : List ℕ
  pub recvinfo : List (ℕ × DataOutInfo)
  pub sendtask : List Task

-- `sendtask.push`
abbrev pub push_task : Task → Session → Session
push_task t s = record s { sendtask = s.sendtask ++ (t ∷ []) }

-- `advanceSTATSN`
abbrev pub advance_statsn : Session → Session
advance_statsn s = record s { statsn = (next_sn s.statsn).1 }

-- `recvinfo`: `put` refuses a tag that is there. `set` is a write through the pointer that `get` gave.
unfoldable pub recv_get : ℕ → List (ℕ × DataOutInfo) → Option DataOutInfo
recv_get itt [] = none
recv_get itt ((k, d) ∷ l) = if k == itt then some d else recv_get itt l

unfoldable pub recv_put : ℕ → DataOutInfo → List (ℕ × DataOutInfo) → List (ℕ × DataOutInfo)
unfolding recv_get
recv_put itt d l = elim (recv_get itt l) [ none ↦ (itt, d) ∷ l | some _ ↦ l ]

unfoldable pub recv_set : ℕ → DataOutInfo → List (ℕ × DataOutInfo) → List (ℕ × DataOutInfo)
recv_set itt d [] = []
recv_set itt d ((k, e) ∷ l) = (if k == itt then (k, d) else (k, e)) ∷ recv_set itt d l

unfoldable pub recv_pop : ℕ → List (ℕ × DataOutInfo) → List (ℕ × DataOutInfo)
recv_pop itt [] = []
recv_pop itt ((k, e) ∷ l) = let rest = recv_pop itt l in if k == itt then rest else (k, e) ∷ rest

-- `wcaches[lun]->push(ws)` and the event for its writer. The segment's address is the next one that
-- is handed out.
abbrev pub store_at : LbaIndex → ℕ → WriteSegment → List WriteCache → List WriteCache
store_at ix i ws [] = []
store_at ix zero ws (c ∷ l) =
    push ix (record ws { ptr = c.next_ptr }) (record c { next_ptr = c.next_ptr + 1 }) ∷ l
store_at ix (suc i) ws (c ∷ l) = c ∷ store_at ix i ws l

abbrev pub store : LbaIndex → ℕ → WriteSegment → Session → Session
store ix lun ws s = record s {
  wcaches = store_at ix lun ws s.wcaches;
  notified = s.notified ++ (lun ∷ []);
}

-- The SCSI response of a finished WRITE.
abbrev pub respond : ℕ → Session → Session
respond itt s =
    push_task
      (task_send (
        pdu_scsi_rsp (record {
          itt = itt;
          residual_count = 0;
          statsn = s.statsn;
          expcmdsn = s.expcmdsn;
          maxcmdsn = s.maxcmdsn;
        })))
      (advance_statsn s)
