-- ===== src/Dispatch.antt =====
-- The loops of a session (src/session.cpp): doWork over the tokens, invoke over the queued tasks, the
-- handlers that a session type registers, and the map of connections.
-- A handler and a task are arguments, functions on a state that the loops do not look into.
pub mod Work
pub mod Connections
use sstoraged.Common.{
  ℕ, ◌+◌, ◌%◌, ◌^◌, Bool, true, false, ◌||◌, ◌==◌, if◌then◌else◌, Option, none, some, List, [], ◌∷◌,
  ◌++◌, add32,
}
use sstoraged.Limitter.{cmd_queue_size}

abbrev pub member : ℕ → List ℕ → Bool
member k [] = false
member k (x ∷ l) = x == k || member k l

-- What doWork returns: 0, -ESRCH for an opcode without a handler, -EIO for a handler that fails.
pub data Status : Type 0 where
  status_ok status_esrch status_eio : Status

-- `doWork`, over the tokens in front, with the opcodes that have handlers. The tokens left begin with
-- the one that failed.
module _ {T S : Type 0} (op_code : T → ℕ) (protos : S → List ℕ) (handle : T → S → Bool × S)
    (clean_up : S → S) where
  unfoldable pub do_work : List T → S → Status × List T × S
  do_work [] s = (status_ok, [], s)
  do_work (t ∷ ts) s =
      let (ok, s') = handle t s in
      let rest = do_work ts s' in
      if member (op_code t) (protos s)
      then if ok then rest else (status_eio, t ∷ ts, clean_up s')
      else (status_esrch, t ∷ ts, clean_up s)

-- How a task's `run` ends.
pub data Outcome : Type 0 where
  outcome_done outcome_again outcome_thrown : Outcome

-- `SessionSendTask::invoke`: success, the tasks left, and the state.
module _ {T S : Type 0} (run : T → S → Outcome × S) where
  unfoldable pub invoke : List T → S → Bool × List T × S
  invoke [] s = (true, [], s)
  invoke (t ∷ ts) s =
      let (outcome, s') = run t s in
      let rest = invoke ts s' in
      elim outcome [
        | outcome_done ↦ rest
        | outcome_again ↦ (true, t ∷ ts, s')
        | outcome_thrown ↦ (false, [], s')
      ]

-- `SessionType`
pub data SessionType : Type 0 where
  session_login session_discovery session_normal : SessionType

-- The opcodes with handlers and MaxCmdSN, as `shift2Discovery` and `shift2Normal` leave them: the
-- handlers that they register come before those of before.
pub record Handlers : Type 0 where
  pub type : SessionType
  pub protos : List ℕ
  pub maxcmdsn : ℕ

unfoldable pub shift_to_discovery : Handlers → Bool × Handlers
shift_to_discovery h = elim h.type [
  | session_discovery ↦ (true, record h { protos = 0x04 ∷ 0x06 ∷ h.protos })
  | session_login ↦ (false, h)
  | session_normal ↦ (false, h)
]

-- The constructors of CommandHandler and DataOutHandler, which take the session's initiator, are taken
-- to succeed.
unfoldable pub shift_to_normal : Handlers → Bool × Handlers
shift_to_normal h = elim h.type [
  | session_normal ↦ (
    true,
    record h {
      protos = 0x01 ∷ 0x05 ∷ 0x00 ∷ 0x20 ∷ 0x02 ∷ 0x06 ∷ h.protos;
      maxcmdsn = add32 h.maxcmdsn cmd_queue_size;
    },
  )
  | session_login ↦ (false, h)
  | session_discovery ↦ (false, h)
]

-- `Connection`: the connections by their sockets. `add` refuses a socket that is there.
module _ {C : Type 0} where
  unfoldable pub find_connection : ℕ → List (ℕ × C) → Option C
  find_connection fd [] = none
  find_connection fd ((k, c) ∷ l) = if k == fd then some c else find_connection fd l

  unfoldable pub add_connection : ℕ → C → List (ℕ × C) → Bool × List (ℕ × C)
  unfolding find_connection
  add_connection fd c l = elim (find_connection fd l) [
    | none ↦ (true, (fd, c) ∷ l)
    | some _ ↦ (false, l)
  ]

  abbrev pub erase_connection : ℕ → List (ℕ × C) → List (ℕ × C)
  erase_connection fd [] = []
  erase_connection fd ((k, c) ∷ l) =
      let rest = erase_connection fd l in if k == fd then rest else (k, c) ∷ rest

  unfoldable pub del_connection : ℕ → List (ℕ × C) → Bool × List (ℕ × C)
  unfolding find_connection
  del_connection fd l = elim (find_connection fd l) [
    | none ↦ (false, l)
    | some _ ↦ (true, erase_connection fd l)
  ]

  unfoldable pub get_initial : List (ℕ × C) → Option C
  get_initial [] = none
  get_initial ((k, c) ∷ []) = some c
  get_initial ((k, c) ∷ _ ∷ _) = none
