-- ===== src/Control.antt =====
-- src/iscsi/logout.cpp, nopout.cpp, nopin.cpp and taskmng.cpp: the requests that carry no data. The text
-- requests are not modelled. The merge of two lists of tasks (std::list::merge, by address) is an
-- argument.
pub mod Numbering
use sstoraged.Common.{
  ℕ, ◌-◌, ◌%◌, ◌^◌, Bool, true, false, not, ◌&&◌, ◌||◌, ltb, ◌==◌, if◌then◌else◌, Option, none,
  some, List, [], ◌∷◌, ◌++◌,
}
use sstoraged.Counter.{next_sn}
use sstoraged.Limitter.{LinearLimitter, PoolState, Window, advance_cmdsns}
use sstoraged.Dispatch.{SessionType, find_connection}
use sstoraged.KeyValue.{Key, default_time2wait, default_time2retain}
use sstoraged.KeyValue.Handlers.{Attr, get_attr, number_or, is_discovery}

abbrev pub rsvd_task_tag : ℕ
rsvd_task_tag = 2 ^ 32 - 1

-- What the parsers get from a header. `code` is the reason of a logout, the function of a task
-- management request; `tag` the target transfer tag, or the referenced task tag.
pub record ControlReq : Type 0 where
  pub op_code : ℕ
  pub final : Bool
  pub immediate_cmd : Bool
  pub itt : ℕ
  pub tag : ℕ
  pub hlength : ℕ
  pub dlength : ℕ
  pub lun : ℕ
  pub code : ℕ
  pub cid : ℕ

-- The socket that a reply is sent on, and the numbers in it.
pub record ReplyHead : Type 0 where
  pub fd : ℕ
  pub itt : ℕ
  pub statsn : ℕ
  pub expcmdsn : ℕ
  pub maxcmdsn : ℕ

-- The tasks that are queued: replies, and the end of a connection or of a session. A logout reply has
-- a response, Time2Wait and Time2Retain.
pub data ControlTask : Type 0 where
  send_logout : ReplyHead → ℕ → ℕ → ℕ → ControlTask
  send_nop_in : ReplyHead → ℕ → ControlTask
  send_task_mng : ReplyHead → ℕ → ℕ → ControlTask
  end_session end_reactor : ControlTask
  end_connection : ℕ → ControlTask

-- A session, and StatSN of the connection on each socket.
pub record Peer : Type 0 where
  pub type : SessionType
  pub statsn : ℕ → ℕ
  pub expcmdsn : ℕ
  pub maxcmdsn : ℕ
  pub pool_state : PoolState
  pub attrs : List (Key × Attr)
  pub connections : List (ℕ × ℕ)
  pub sendtask : List ControlTask

abbrev pub head_of : ℕ → ControlReq → Peer → ReplyHead
head_of fd req p = record {
  fd = fd;
  itt = req.itt;
  statsn = p.statsn fd;
  expcmdsn = p.expcmdsn;
  maxcmdsn = p.maxcmdsn;
}

abbrev pub logout_valid : ControlReq → Bool
logout_valid req = req.op_code == 6 && req.final

abbrev pub nop_out_valid : ControlReq → Bool
nop_out_valid req =
    req.op_code == 0
    && (req.final
        && (not (req.itt == rsvd_task_tag)
            && (req.tag == rsvd_task_tag && not (ltb 0 req.dlength))))

abbrev pub nop_in_valid : ControlReq → Bool
nop_in_valid req = req.op_code == 0x20 && (req.final && req.tag == rsvd_task_tag)

-- TASK_FUNC_ABORT_TASK is 1, TASK_FUNC_TASK_REASSIGN is 8.
abbrev pub task_mng_valid : ControlReq → Bool
task_mng_valid req =
    req.op_code == 2
    && (req.final
        && (req.hlength == 0
            && (req.dlength == 0
                && (req.code == 1 || (req.code == 8 || req.tag == rsvd_task_tag)))))

-- The response of a logout, and the task that it asks for. The connection is searched for under its
-- CID, in the map by sockets.
abbrev pub end_all : SessionType → ControlTask
end_all t = if is_discovery t then end_session else end_reactor

abbrev pub end_one : ℕ → SessionType → Option ℕ → ℕ × List ControlTask
end_one fd t none = (1, end_all t ∷ [])
end_one fd t (some c) = (0, end_connection fd ∷ [])

unfoldable pub logout_tasks : ℕ → ControlReq → Peer → ℕ × List ControlTask
unfolding find_connection
logout_tasks fd req p =
    if req.code == 0
    then (0, end_all p.type ∷ [])
    else if req.code == 1
    then end_one fd p.type (find_connection req.cid p.connections)
    else if req.code == 2
    then (2, [])
    else (3, [])

-- The two times: the second attribute is read into the variable that holds the first.
abbrev pub with_retain : ℕ → Option ℕ → Option (ℕ × ℕ)
with_retain wait none = none
with_retain wait (some retain) = some (wait % 2 ^ 16, retain % 2 ^ 16)

abbrev pub times : List (Key × Attr) → Option (ℕ × ℕ)
times l = elim (number_or 0 (get_attr default_time2wait l)) [
  | none ↦ none
  | some wait ↦ with_retain wait (number_or wait (get_attr default_time2retain l))
]

-- `conn->statsn_gen()`
abbrev pub counted : ℕ → Peer → Peer
counted fd p = record p { statsn = λ c. if c == fd then (next_sn (p.statsn fd)).1 else p.statsn c }

module _ (merge : List ControlTask → List ControlTask → List ControlTask) where
  abbrev pub reply_logout :
      ℕ → ControlReq → Peer → ℕ × List ControlTask → Option (ℕ × ℕ) → Option (Bool × Peer)
  reply_logout fd req p (response, tasks) none = none
  reply_logout fd req p (response, tasks) (some (wait, retain)) = some (
    true,
    record (counted fd p) {
      sendtask = merge p.sendtask (send_logout (head_of fd req p) response wait retain ∷ tasks);
    },
  )

  -- `LogoutHandler::handle`; `none` is an exception of boost::get.
  unfoldable pub handle_logout : ℕ → ControlReq → Peer → Option (Bool × Peer)
  unfolding logout_tasks
  handle_logout fd req p =
      if logout_valid req
      then reply_logout fd req p (logout_tasks fd req p) (times p.attrs)
      else some (false, p)

-- `NopInHandler::handle`
unfoldable pub handle_nop_in : ControlReq → Peer → Option (Bool × Peer)
handle_nop_in req p = some (nop_in_valid req, p)

-- The pool and the caches at the time of a request.
module _ (fuel : ℕ) (limitter : LinearLimitter) (poolnum : ℕ) (sizes : List ℕ) where
  abbrev pub in_window : Peer → Option Window → Option Peer
  in_window p none = none
  in_window p (some w) =
      some (record p { expcmdsn = w.expcmdsn; maxcmdsn = w.maxcmdsn; pool_state = w.pool_state })

  abbrev pub count_cmd : ControlReq → Peer → Option Peer
  count_cmd req p =
      let next =
        in_window p (
          advance_cmdsns fuel limitter (is_discovery p.type) poolnum sizes p.expcmdsn p.maxcmdsn) in
      if req.immediate_cmd then some p else next

  abbrev pub reply_nop : ℕ → ControlReq → Option Peer → Option (Bool × Peer)
  reply_nop fd req none = none
  reply_nop fd req (some p) = some (
    true,
    record (counted fd p) {
      sendtask = p.sendtask ++ send_nop_in (head_of fd req p) rsvd_task_tag ∷ [];
    },
  )

  -- `NopOutHandler::handle`
  unfoldable pub handle_nop_out : ℕ → ControlReq → Peer → Option (Bool × Peer)
  handle_nop_out fd req p =
      if nop_out_valid req then reply_nop fd req (count_cmd req p) else some (false, p)

  abbrev pub reply_task_mng : ℕ → ControlReq → Option Peer → Option (Bool × Peer)
  reply_task_mng fd req none = none
  reply_task_mng fd req (some p) = some (
    true,
    record (counted fd p) {
      sendtask = p.sendtask ++ send_task_mng (head_of fd req p) 0 req.lun ∷ [];
    },
  )

  -- `TaskMngHandler::handle`; every function is answered as complete.
  unfoldable pub handle_task_mng : ℕ → ControlReq → Peer → Option (Bool × Peer)
  handle_task_mng fd req p =
      if task_mng_valid req then reply_task_mng fd req (count_cmd req p) else some (false, p)

-- The handlers of a normal session for these requests, by opcode; `none` too where there is another.
unfoldable pub handle_control :
    (List ControlTask → List ControlTask → List ControlTask)
    → ℕ
    → LinearLimitter
    → ℕ
    → List ℕ
    → ℕ
    → ControlReq
    → Peer
    → Option (Bool × Peer)
unfolding handle_logout handle_nop_in handle_nop_out handle_task_mng
handle_control merge fuel limitter poolnum sizes fd req p =
    if req.op_code == 0x00
    then handle_nop_out fuel limitter poolnum sizes fd req p
    else if req.op_code == 0x20
    then handle_nop_in req p
    else if req.op_code == 0x02
    then handle_task_mng fuel limitter poolnum sizes fd req p
    else if req.op_code == 0x06
    then handle_logout merge fd req p
    else none
