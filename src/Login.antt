-- ===== src/Login.antt =====
-- src/iscsi/login.cpp: LoginHandler. Below it, Pairs is about the data segment, Stages about the
-- stages and the handlers that a session gets. What the casts of boost give and std::list::merge,
-- which orders by address, are arguments.
pub mod Pairs
pub mod Stages
pub mod Requests
use sstoraged.Common.{
  ℕ, zero, suc, ◌+◌, ◌*◌, ◌%◌, ◌^◌, Bool, true, false, not, ◌&&◌, ◌||◌, ltb, ◌==◌, if◌then◌else◌,
  Option, none, some, List, [], ◌∷◌, ◌++◌,
}
use sstoraged.Counter.{next, sn_max, next_sn}
use sstoraged.Limitter.{LinearLimitter, PoolState, Window, advance_cmdsns}
use sstoraged.Dispatch.{
  SessionType, session_login, session_discovery, session_normal, Handlers, shift_to_discovery,
  shift_to_normal, find_connection, add_connection, del_connection,
}
use sstoraged.KeyValue.{Text, same, discovery, normal, Key, session_type, Config}
use sstoraged.KeyValue.Handlers.{
  Attr, Initiator, Negotiation, ReplyKey, Value, is_discovery, handle_pair,
}
use sstoraged.Login.Pairs.{parse_pairs, get_pair_value}

-- What LoginParser gets from the header, and the data segment.
pub record LoginReq : Type 0 where
  pub op_code : ℕ
  pub transit : Bool
  pub continued : Bool
  pub immediate_cmd : Bool
  pub current_stage : ℕ
  pub next_stage : ℕ
  pub session_id : ℕ
  pub tsih : ℕ
  pub cid : ℕ
  pub itt : ℕ
  pub expstatsn : ℕ
  pub dlength : ℕ
  pub data_segment : Text

-- `LoginRspHeader`, as far as it is set, and the pairs of its data segment. No member sets its TSIH.
pub record LoginRsp : Type 0 where
  pub flags : ℕ
  pub itt : ℕ
  pub statsn : ℕ
  pub expcmdsn : ℕ
  pub maxcmdsn : ℕ
  pub session_id : ℕ
  pub pairs : List (ReplyKey × Value)

-- The tasks that a login queues; an old session is named by its reactor's session ID.
pub data LoginTask : Type 0 where
  task_reply : LoginRsp → LoginTask
  task_create_reactor task_close_session : LoginTask
  task_remove_reactor : ℕ → LoginTask

-- A session with a reactor: its TSIH, and StatSN of its connections, by socket.
pub record OldSession : Type 0 where
  pub tsih : ℕ
  pub connections : List (ℕ × ℕ)

-- `iSCSIManager`: the IDs of the sessions in its pool, the sessions with reactors by their IDs, and
-- the counter of TSIHs.
pub record Manager : Type 0 where
  pub sessions : List ℕ
  pub reactors : List (ℕ × OldSession)
  pub tsih_gen : ℕ

abbrev pub find_session : ℕ → List ℕ → Bool
find_session sid [] = false
find_session sid (s ∷ l) = s == sid || find_session sid l

abbrev pub find_reactor : ℕ → List (ℕ × OldSession) → Option OldSession
find_reactor sid [] = none
find_reactor sid ((s, o) ∷ l) = if s == sid then some o else find_reactor sid l

abbrev pub set_old : ℕ → OldSession → List (ℕ × OldSession) → List (ℕ × OldSession)
set_old sid o [] = []
set_old sid o ((s, p) ∷ l) = if s == sid then (s, o) ∷ l else (s, p) ∷ set_old sid o l

-- A session in login, with its current connection.
pub record LoginSession : Type 0 where
  pub handlers : Handlers
  pub sid : ℕ
  pub tsih : ℕ
  pub cid : ℕ
  pub statsn : ℕ
  pub expcmdsn : ℕ
  pub pool_state : PoolState
  pub attrs : List (Key × Attr)
  pub initiator : Option Initiator
  pub tag : ℕ
  pub sendtask : List LoginTask

-- `LoginParser::valid`; iSCSI_OP_LOGIN_CMD is 3.
abbrev pub login_valid : LoginReq → Bool
login_valid req = req.op_code == 3 && (req.transit && not req.continued)

-- `SessionType::set`
abbrev pub type_of : Text → SessionType
type_of v =
    if same v discovery
    then session_discovery
    else if same v normal
    then session_normal
    else session_login

-- `shiftLoginStage`; UNKNOWN_PHASE is 255.
unfoldable pub shift_login_stage : ℕ → ℕ → ℕ
shift_login_stage csg nsg =
    if csg == 0
    then if not (nsg == 3) && not (nsg == 1) then 255 else if ltb nsg 3 then nsg else 3
    else if csg == 1
    then if not (nsg == 3) then 255 else 3
    else 255

-- What the first request of a connection does: success, the tasks, the session and the manager.
abbrev pub First : Type 0
First = Bool × List LoginTask × LoginSession × Manager

abbrev pub identify : LoginReq → LoginSession → LoginSession
identify req s = record s { sid = req.session_id; cid = req.cid }

-- `handle1stDiscoveryRequest`
unfoldable pub handle_1st_discovery : LoginReq → LoginSession → Manager → First
handle_1st_discovery req s m =
    if find_session req.session_id m.sessions
    then (false, [], s, m)
    else (true, [], identify req s, m)

-- The connections of an old session take the current one over. The connection is searched for under
-- its CID, in a map by sockets.
unfoldable pub take_over : ℕ → LoginReq → OldSession → LoginSession → Manager → First
unfolding find_connection add_connection del_connection
take_over fd req old s m = elim (find_connection req.cid old.connections) [
  | none ↦
      let conns = (add_connection fd s.statsn old.connections).1 in
      (
        true,
        task_close_session ∷ [],
        identify req s,
        record m {
          reactors = set_old req.session_id (record old { connections = conns }) m.reactors;
        },
      )
  | some statsn ↦
      let conns = (add_connection fd statsn (del_connection req.cid old.connections).1).1 in
      if req.expstatsn == statsn
      then (
        true,
        task_close_session ∷ [],
        identify req (record s { statsn = statsn }),
        record m {
          reactors = set_old req.session_id (record old { connections = conns }) m.reactors;
        },
      )
      else (false, [], s, m)
]

-- `handle1stNormalRequest`
unfoldable pub handle_1st_normal : ℕ → LoginReq → LoginSession → Manager → First
unfolding take_over
handle_1st_normal fd req s m = elim (find_reactor req.session_id m.reactors) [
  | none ↦
      if req.tsih == 0
      then (true, task_create_reactor ∷ [], identify req s, m)
      else (false, [], s, m)
  | some old ↦
      if req.tsih == 0
      then (true, task_remove_reactor req.session_id ∷ task_create_reactor ∷ [], identify req s, m)
      else if req.tsih == old.tsih
      then take_over fd req old s m
      else (false, [], s, m)
]

-- `handle1stRequest`
unfoldable pub handle_1st : ℕ → LoginReq → LoginSession → Manager → First
unfolding handle_1st_discovery handle_1st_normal
handle_1st fd req s m = elim s.handlers.type [
  | session_login ↦ (false, [], s, m)
  | session_discovery ↦ handle_1st_discovery req s m
  | session_normal ↦ handle_1st_normal fd req s m
]

abbrev pub set_type : SessionType → LoginSession → LoginSession
set_type t s = record s { handlers = record s.handlers { type = t } }

abbrev pub is_login : SessionType → Bool
is_login session_login = true
is_login session_discovery = false
is_login session_normal = false

-- The first request of a session in login, after SessionType is set; nothing for a later one.
unfoldable pub first_request : ℕ → LoginReq → List (Key × Text) → LoginSession → Manager → First
unfolding handle_1st
first_request fd req pairs s m =
    if is_login s.handlers.type
    then handle_1st fd req (set_type (type_of (get_pair_value session_type pairs)) s) m
    else (true, [], s, m)

-- The status shift of a session that enters the full feature phase.
abbrev pub number_session : LoginSession → Manager → LoginSession × Manager
number_session s m =
    let (value, gen) = next 1 sn_max m.tsih_gen in
    if s.tsih == 0
    then (record s { tsih = value % 2 ^ 16 }, record m { tsih_gen = gen })
    else (s, m)

abbrev pub enter : LoginSession × Manager → Bool × LoginSession × Manager
unfolding shift_to_discovery shift_to_normal
enter (s, m) = elim s.handlers.type [
  | session_login ↦ (false, s, m)
  | session_discovery ↦ (true, record s { handlers = (shift_to_discovery s.handlers).1 }, m)
  | session_normal ↦ (true, record s { handlers = (shift_to_normal s.handlers).1 }, m)
]

unfoldable pub shift_status : ℕ → LoginSession → Manager → Bool × LoginSession × Manager
unfolding enter
shift_status nsg s m =
    if nsg == 0 || nsg == 1
    then (true, s, m)
    else if nsg == 3
    then enter (number_session s m)
    else (false, s, m)

-- The part of a session that the handlers of the keys change, and back.
abbrev pub negotiation : LoginSession → Negotiation
negotiation s = record {
  type = s.handlers.type;
  attrs = s.attrs;
  initiator = s.initiator;
  tag = s.tag;
  reply = [];
}

abbrev pub negotiated : Negotiation → LoginSession → LoginSession
negotiated n s = record s { attrs = n.attrs; initiator = n.initiator; tag = n.tag }

-- The reply. A flag for the transit is always set; nsg of 255 fills the flags.
abbrev pub login_reply : LoginReq → ℕ → LoginSession → LoginRsp
login_reply req nsg s = record {
  flags = if nsg == 255 then 255 else 128 + (req.current_stage * 4 + nsg);
  itt = req.itt;
  statsn = s.statsn;
  expcmdsn = s.expcmdsn;
  maxcmdsn = s.handlers.maxcmdsn;
  session_id = s.sid;
  pairs = [];
}

abbrev pub answer :
    (List LoginTask → List LoginTask → List LoginTask)
    → LoginRsp
    → List LoginTask
    → Bool × LoginSession × Manager
    → Option (Bool × LoginSession × Manager)
answer merge reply tasks (false, s, m) = some (false, s, m)
answer merge reply tasks (true, s, m) =
    some (true, record s { sendtask = merge s.sendtask (task_reply reply ∷ tasks) }, m)

abbrev pub windowed : LoginSession → Option Window → Option LoginSession
windowed s none = none
windowed s (some w) = some (record s {
  handlers = record s.handlers { maxcmdsn = w.maxcmdsn };
  expcmdsn = w.expcmdsn;
  pool_state = w.pool_state;
})

-- `LoginHandler::handle` on the connection `fd`: `none` is an exception, a null initiator, or a loop of
-- advanceCMDSNs that has used up its fuel.
module _ (cast64 cast32 : Text → Option ℕ) (config : Config) (opens : Text → Bool) (garbage : ℕ)
    (merge : List LoginTask → List LoginTask → List LoginTask) (fuel : ℕ)
    (limitter : LinearLimitter) (poolnum : ℕ) (sizes : List ℕ) where
  unfoldable pub advance_window : LoginReq → LoginSession → Option LoginSession
  advance_window req s =
      let next = windowed s (
        advance_cmdsns fuel limitter (is_discovery s.handlers.type) poolnum sizes s.expcmdsn
          s.handlers.maxcmdsn) in
      if req.immediate_cmd then some s else next

  -- The loop over the keys; each is given the first value of its name.
  unfoldable pub handle_pairs :
      List (Key × Text) → List (Key × Text) → Negotiation → Option (Bool × Negotiation)
  handle_pairs all [] n = some (true, n)
  handle_pairs all ((k, v) ∷ l) n =
      elim (handle_pair cast32 config opens garbage k (get_pair_value k all) n) [
        | none ↦ none
        | some (false, n') ↦ some (false, n')
        | some (true, n') ↦ handle_pairs all l n'
      ]

  -- Behind the loop over the keys.
  unfoldable pub conclude :
      LoginReq
      → ℕ
      → LoginRsp
      → List LoginTask
      → LoginSession
      → Manager
      → Option (Bool × Negotiation)
      → Option (Bool × LoginSession × Manager)
  unfolding shift_status
  conclude req nsg reply tasks s m none = none
  conclude req nsg reply tasks s m (some (false, n)) = some (false, negotiated n s, m)
  conclude req nsg reply tasks s m (some (true, n)) =
      answer merge (record reply { pairs = n.reply }) tasks (shift_status nsg (negotiated n s) m)

  -- Behind the command window.
  unfoldable pub reply_to :
      LoginReq
      → List (Key × Text)
      → List LoginTask
      → Manager
      → Option LoginSession
      → Option (Bool × LoginSession × Manager)
  unfolding shift_login_stage handle_pairs conclude
  reply_to req pairs tasks m none = none
  reply_to req pairs tasks m (some s) =
      let nsg = shift_login_stage req.current_stage req.next_stage in
      let sent : LoginSession = record s { statsn = (next_sn s.statsn).1 } in
      conclude req nsg (login_reply req nsg s) tasks sent m
        (handle_pairs pairs pairs (negotiation sent))

  unfoldable pub begin :
      LoginReq → List (Key × Text) → First → Option (Bool × LoginSession × Manager)
  unfolding advance_window reply_to
  begin req pairs (ok, tasks, s, m) =
      let rest = reply_to req pairs tasks m (advance_window req s) in
      if ok then rest else some (false, s, m)

  unfoldable pub handle_login :
      ℕ → LoginReq → LoginSession → Manager → Option (Bool × LoginSession × Manager)
  unfolding parse_pairs first_request begin
  handle_login fd req s m =
      if login_valid req
      then elim (parse_pairs cast64 config req.dlength req.dlength req.data_segment) [
        | none ↦ none
        | some (false, l) ↦ some (false, s, m)
        | some (true, pairs) ↦ begin req pairs (first_request fd req pairs s m)
      ]
      else some (false, s, m)
