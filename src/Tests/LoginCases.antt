-- ===== src/Tests/LoginCases.antt =====
-- A login from the first request to the full feature phase: SessionType=Normal, InitiatorName=x and
-- MaxBurstLength=9, with every text cast to 4096.
use sstoraged.Common.{ℕ, ◌≡◌, refl, Bool, true, false, Option, none, some, List, [], ◌∷◌, ◌++◌}
use sstoraged.Limitter.{LinearLimitter, pool_normal, make_limitter}
use sstoraged.Dispatch.{session_login, session_normal}
use sstoraged.KeyValue.{key_code, Text, Config, max_burst_length, immediate_data}
use sstoraged.KeyValue.Handlers.{attr_number, attr_flag, value_number, Negotiation, handle_pair}
use sstoraged.KeyValue.Values.{Agreed, handle_pair-number}
use sstoraged.Login.{LoginReq, LoginSession, LoginTask, Manager, handle_login}
use sstoraged.Login.Stages.{Safe}
use sstoraged.Login.Requests.{Result, handle_login-Result, logins_none, logins_more, Logins-Safe}

abbrev cast : Text → Option ℕ
cast t = some 4096

abbrev config : Config
config = record {
  initiators = (120 ∷ []) ∷ [];
  target_name = [];
  header_digest = [];
  data_digest = [];
}

abbrev opens : Text → Bool
opens t = true

abbrev offered : Negotiation
offered = record {
  type = session_normal;
  attrs = (max_burst_length, attr_number 262144) ∷ (immediate_data, attr_flag true) ∷ [];
  initiator = none;
  tag = 0;
  reply = [];
}

handle_pair-number_example :
    Agreed max_burst_length
      (attr_number 4096)
      (value_number 4096)
      offered
      (handle_pair cast config opens 0 max_burst_length [] offered)
unfolding key_code
handle_pair-number_example =
    handle_pair-number cast config opens 0 max_burst_length [] 262144 4096 4096 offered refl refl
      refl refl

abbrev fresh : LoginSession
fresh = record {
  handlers = record { type = session_login; protos = 0x03 ∷ []; maxcmdsn = 2 };
  sid = 0;
  tsih = 0;
  cid = 0;
  statsn = 0;
  expcmdsn = 1;
  pool_state = pool_normal;
  attrs = (max_burst_length, attr_number 262144) ∷ [];
  initiator = none;
  tag = 1;
  sendtask = [];
}

abbrev manager : Manager
manager = record { sessions = []; reactors = []; tsih_gen = 1 }

abbrev request : LoginReq
request = record {
  op_code = 3;
  transit = true;
  continued = false;
  immediate_cmd = true;
  current_stage = 1;
  next_stage = 3;
  session_id = 77;
  tsih = 0;
  cid = 1;
  itt = 5;
  expstatsn = 0;
  dlength = 52;
  data_segment =
      83 ∷ 101 ∷ 115 ∷ 115 ∷ 105 ∷ 111 ∷ 110 ∷ 84 ∷ 121 ∷ 112 ∷ 101 ∷ 61 ∷ 78 ∷ 111 ∷ 114 ∷ 109 ∷ 97
      ∷ 108 ∷ 0 ∷ 73 ∷ 110 ∷ 105 ∷ 116 ∷ 105 ∷ 97 ∷ 116 ∷ 111 ∷ 114 ∷ 78 ∷ 97 ∷ 109 ∷ 101 ∷ 61 ∷ 120
      ∷ 0 ∷ 77 ∷ 97 ∷ 120 ∷ 66 ∷ 117 ∷ 114 ∷ 115 ∷ 116 ∷ 76 ∷ 101 ∷ 110 ∷ 103 ∷ 116 ∷ 104 ∷ 61 ∷ 57
      ∷ 0 ∷ [];
}

abbrev limits : LinearLimitter
limits = make_limitter 100 200

abbrev append : List LoginTask → List LoginTask → List LoginTask
append a b = a ++ b

handle_login-Result_example :
    Result request
      (0x03 ∷ [])
      (handle_login cast cast config opens 0 append 144 limits 10 [] 4 request fresh manager)
handle_login-Result_example =
    handle_login-Result append cast cast config opens 0 144 limits 10 [] 4 request fresh manager
      (refl, tt)

abbrev logged_in : Bool × LoginSession × Manager
logged_in =
    elim (handle_login cast cast config opens 0 append 144 limits 10 [] 4 request fresh manager) [
      | none ↦ (false, fresh, manager)
      | some r ↦ r
    ]

logged_in-protos : logged_in.1.handlers.protos ≡ 0x01 ∷ 0x05 ∷ 0x00 ∷ 0x20 ∷ 0x02 ∷ 0x06 ∷ 0x03 ∷ []
unfolding handle_login key_code handle_pair
logged_in-protos = refl

accepted :
    handle_login cast cast config opens 0 append 144 limits 10 [] 4 request fresh manager
    ≡ some (logged_in.0, logged_in.1, logged_in.2)
unfolding handle_login key_code handle_pair
accepted = refl

Logins-Safe_example : Safe logged_in.1.handlers
Logins-Safe_example =
    Logins-Safe cast cast config opens 0 append 144 limits fresh logged_in.1 refl refl (
      logins_more fresh logged_in.1 10 [] 4 request manager logged_in.2 logged_in.0 logins_none
        accepted)
