-- ===== src/KeyValue/Handlers.antt =====
-- src/iscsi/keyvalue.cpp and include/iscsi/keyvalue.h: the handlers of the keys of a login.
use sstoraged.Common.{
  ℕ, min, max, Bool, true, false, not, ◌&&◌, ◌||◌, if◌then◌else◌, Option, none, some, List, [], ◌∷◌,
  ◌++◌,
}
use sstoraged.Dispatch.{SessionType, session_login, session_discovery, session_normal}
use sstoraged.KeyValue.{
  Text, same, contains, yes, no, none_text, chap, crc32c, comma_none, Config, Key, key_eq,
  initiator_name, initiator_alias, auth_method, session_type, target_name, target_alias,
  header_digest, data_digest, max_recv_data_segment_length, default_time2wait, default_time2retain,
  error_recovery_level, max_connections, max_burst_length, first_burst_length, max_outstanding_r2t,
  initial_r2t, immediate_data, data_pdu_in_order, data_sequence_in_order, if_marker, of_marker,
  ping_timeout, send_async_text, protocol,
}

-- An attribute of a session. The handlers read each key as one of the two types.
pub data Attr : Type 0 where
  attr_number : ℕ → Attr
  attr_flag : Bool → Attr

abbrev pub get_attr : Key → List (Key × Attr) → Option Attr
get_attr k [] = none
get_attr k ((j, a) ∷ l) = if key_eq j k then some a else get_attr k l

abbrev pub set_attr : Key → Attr → List (Key × Attr) → List (Key × Attr)
set_attr k a [] = (k, a) ∷ []
set_attr k a ((j, b) ∷ l) = if key_eq j k then (k, a) ∷ l else (j, b) ∷ set_attr k a l

-- A value of the reply: a text, or a number that is printed.
pub data Value : Type 0 where
  value_text : Text → Value
  value_number : ℕ → Value

pub data ReplyKey : Type 0 where
  reply_key : Key → ReplyKey
  reply_portal_group_tag : ReplyKey

pub record Initiator : Type 0 where
  pub name : Text
  pub alias : Text
  pub mrds : ℕ
  pub auth : List Text

-- What the handlers of keys change: a part of the session, and the reply.
pub record Negotiation : Type 0 where
  pub type : SessionType
  pub attrs : List (Key × Attr)
  pub initiator : Option Initiator
  pub tag : ℕ
  pub reply : List (ReplyKey × Value)

abbrev pub add_key_value : ReplyKey → Value → Negotiation → Negotiation
add_key_value k v s = record s { reply = s.reply ++ (k, v) ∷ [] }

abbrev pub is_normal : SessionType → Bool
is_normal session_normal = true
is_normal session_login = false
is_normal session_discovery = false

abbrev pub is_discovery : SessionType → Bool
is_discovery session_discovery = true
is_discovery session_login = false
is_discovery session_normal = false

-- The tail of a negotiating handler: setAttr and addKeyValue.
abbrev pub agree_number : Key → ℕ → Negotiation → Option (Bool × Negotiation)
agree_number k n s = some (
  true,
  add_key_value (reply_key k) (value_number n)
      (record s { attrs = set_attr k (attr_number n) s.attrs }),
)

abbrev pub yes_no : Bool → Text
yes_no b = if b then yes else no

abbrev pub agree_flag : Key → Bool → Negotiation → Option (Bool × Negotiation)
agree_flag k b s = some (
  true,
  add_key_value (reply_key k) (value_text (yes_no b))
      (record s { attrs = set_attr k (attr_flag b) s.attrs }),
)

-- getAttr into a number or a flag that holds `old`; `none` is an exception of boost::get.
abbrev pub number_or : ℕ → Option Attr → Option ℕ
number_or old none = some old
number_or old (some (attr_number n)) = some n
number_or old (some (attr_flag b)) = none

abbrev pub flag_or : Bool → Option Attr → Option Bool
flag_or old none = some old
flag_or old (some (attr_number n)) = none
flag_or old (some (attr_flag b)) = some b

-- The handlers of numbers (`NormalMinHandler`, `NegotiateMinHandler`, `NegotiateMaxHandler`) and of
-- flags (`NormalOrHandler`, `NormalAndHandler`, `NegotiateAndHandler`): the operation, what the local
-- variable holds where there is no attribute, and whether only a normal session negotiates the key.
unfoldable pub negotiate_number :
    (ℕ → ℕ → ℕ) → ℕ → Bool → Key → Option ℕ → Negotiation → Option (Bool × Negotiation)
negotiate_number op old normal_only k offered s =
    let own = number_or old (get_attr k s.attrs) in
    if normal_only && not (is_normal s.type) then some (false, s) else elim own [
      | none ↦ none
      | some n ↦ elim offered [ none ↦ none | some m ↦ agree_number k (op n m) s ]
    ]

unfoldable pub negotiate_flag :
    (Bool → Bool → Bool) → Bool → Key → Text → Negotiation → Option (Bool × Negotiation)
negotiate_flag op normal_only k v s =
    if normal_only && not (is_normal s.type)
    then some (false, s)
    else elim (flag_or false (get_attr k s.attrs)) [
      | none ↦ none
      | some b ↦ agree_flag k (op b (same v yes)) s
    ]

-- `DigestHandler`, of what is configured and what is offered.
abbrev pub joined : Text → Text
joined [] = none_text
joined (x ∷ t) = x ∷ t ++ comma_none

abbrev pub digest : Text → Text → Text
digest own v =
    let first = if contains crc32c own && contains crc32c v then crc32c else [] in
    if contains none_text own && contains none_text v then joined first else first

-- `AuthMethodHandler`: the methods, in the order in which they are added, and the reply.
abbrev pub auth_infos : Text → List Text
auth_infos v =
    (if contains chap v then chap ∷ [] else [])
    ++ (if contains none_text v then none_text ∷ [] else [])

abbrev pub auth_reply : Text → Text
auth_reply v =
    let first = if contains chap v then chap else [] in
    if contains none_text v then joined first else first

-- The handlers of the keys, as LoginHandler sets them; `none` is an exception, or the use of an
-- initiator that is not there. `opens` says whether the constructor of iSCSIInitiator succeeds for a
-- name; `garbage` is what a number holds that is not initialised.
module _ (cast32 : Text → Option ℕ) (config : Config) (opens : Text → Bool) (garbage : ℕ) where
  abbrev pub name_initiator : Text → Negotiation → Option (Bool × Negotiation)
  name_initiator v s =
      let named : Negotiation = record s {
        initiator = some (record { name = v; alias = []; mrds = 8192; auth = [] });
        tag = if is_discovery s.type then 1 else s.tag;
      } in
      if opens v
      then some (true, add_key_value reply_portal_group_tag (value_number named.tag) named)
      else some (false, s)

  abbrev pub alias_initiator : Text → Option Initiator → Negotiation → Option (Bool × Negotiation)
  alias_initiator v none s = none
  alias_initiator v (some i) s = some (true, record s { initiator = some (record i { alias = v }) })

  abbrev pub authenticate : Text → Option Initiator → Negotiation → Option (Bool × Negotiation)
  authenticate v none s = none
  authenticate v (some i) s = some (
    true,
    add_key_value (reply_key auth_method) (value_text (auth_reply v))
        (record s { initiator = some (record i { auth = i.auth ++ auth_infos v }) }),
  )

  -- The reply is the target's own number, if it has one.
  abbrev pub own_mrds : ℕ → Option Attr → Negotiation → Option (Bool × Negotiation)
  own_mrds n none s = some (true, s)
  own_mrds n (some (attr_flag b)) s = none
  own_mrds n (some (attr_number m)) s =
      some (true, add_key_value (reply_key max_recv_data_segment_length) (value_number m) s)

  abbrev pub set_mrds : Option ℕ → Option Initiator → Negotiation → Option (Bool × Negotiation)
  set_mrds none i s = none
  set_mrds (some n) none s = none
  set_mrds (some n) (some i) s =
      own_mrds n (get_attr max_recv_data_segment_length s.attrs)
        (record s { initiator = some (record i { mrds = n }) })

  unfoldable pub handle_pair : Key → Text → Negotiation → Option (Bool × Negotiation)
  unfolding negotiate_number negotiate_flag
  handle_pair initiator_name v s = name_initiator v s
  handle_pair initiator_alias v s = alias_initiator v s.initiator s
  handle_pair auth_method v s = authenticate v s.initiator s
  handle_pair session_type v s = some (true, s)
  handle_pair target_name v s = some (true, s)
  handle_pair target_alias v s = some (true, s)
  handle_pair header_digest v s =
      some (
        true,
        add_key_value (reply_key header_digest) (value_text (digest config.header_digest v)) s,
      )
  handle_pair data_digest v s =
      some
        (true, add_key_value (reply_key data_digest) (value_text (digest config.data_digest v)) s)
  handle_pair max_recv_data_segment_length v s = set_mrds (cast32 v) s.initiator s
  handle_pair default_time2wait v s = negotiate_number max 0 false default_time2wait (cast32 v) s
  handle_pair default_time2retain v s =
      negotiate_number min garbage false default_time2retain (cast32 v) s
  handle_pair error_recovery_level v s =
      negotiate_number min garbage false error_recovery_level (cast32 v) s
  handle_pair max_connections v s = negotiate_number min 0 true max_connections (cast32 v) s
  handle_pair max_burst_length v s = negotiate_number min 0 true max_burst_length (cast32 v) s
  handle_pair first_burst_length v s = negotiate_number min 0 true first_burst_length (cast32 v) s
  handle_pair max_outstanding_r2t v s = negotiate_number min 0 true max_outstanding_r2t (cast32 v) s
  handle_pair initial_r2t v s = negotiate_flag (λ a b. a || b) true initial_r2t v s
  handle_pair immediate_data v s = negotiate_flag (λ a b. a && b) true immediate_data v s
  handle_pair data_pdu_in_order v s = negotiate_flag (λ a b. a || b) true data_pdu_in_order v s
  handle_pair data_sequence_in_order v s =
      negotiate_flag (λ a b. a || b) true data_sequence_in_order v s
  handle_pair if_marker v s = negotiate_flag (λ a b. a && b) false if_marker v s
  handle_pair of_marker v s = negotiate_flag (λ a b. a && b) false of_marker v s
  handle_pair ping_timeout v s = some (true, s)
  handle_pair send_async_text v s = some (true, s)
  handle_pair protocol v s = some (true, s)
