-- ===== src/Login/Pairs.antt =====
-- src/iscsi/login.cpp: how the data segment of a login request becomes keys and values. The regular
-- expression "(.*)=(.*)" splits at the last '=', as the documentation of boost has it.
use sstoraged.Common.{
  ℕ, zero, suc, ◌+◌, ◌-◌, Bool, true, false, ◌==◌, if◌then◌else◌, Option, none, some, List, [], ◌∷◌,
  length,
}
use sstoraged.KeyValue.{
  Text, same, Config, valid, key_eq, Key, initiator_name, initiator_alias, auth_method,
  session_type, target_name, target_alias, header_digest, data_digest, max_recv_data_segment_length,
  default_time2wait, default_time2retain, error_recovery_level, max_connections, max_burst_length,
  first_burst_length, max_outstanding_r2t, initial_r2t, immediate_data, data_pdu_in_order,
  data_sequence_in_order, if_marker, of_marker, ping_timeout, send_async_text, protocol,
}

-- A text with what stands behind its NUL.
abbrev pub c_string : Text → Text × Text
c_string [] = ([], [])
c_string (c ∷ t) = let (a, b) = c_string t in if c == 0 then ([], t) else (c ∷ a, b)

-- `GetKeyValuePair`
abbrev pub or_split : ℕ → Text → Option (Text × Text) → Option (Text × Text)
or_split c t (some (a, b)) = some (c ∷ a, b)
or_split c t none = if c == 61 then some ([], t) else none

abbrev pub split_last : Text → Option (Text × Text)
split_last [] = none
split_last (c ∷ t) = or_split c t (split_last t)

abbrev pub get_key_value_pair : Text → Text × Text
get_key_value_pair t = elim (split_last t) [ none ↦ ([], []) | some p ↦ p ]

abbrev pub key_names : List (Text × Key)
key_names =
    (73 ∷ 110 ∷ 105 ∷ 116 ∷ 105 ∷ 97 ∷ 116 ∷ 111 ∷ 114 ∷ 78 ∷ 97 ∷ 109 ∷ 101 ∷ [], initiator_name)
    ∷ (
      73 ∷ 110 ∷ 105 ∷ 116 ∷ 105 ∷ 97 ∷ 116 ∷ 111 ∷ 114 ∷ 65 ∷ 108 ∷ 105 ∷ 97 ∷ 115 ∷ [],
      initiator_alias,
    )
    ∷ (65 ∷ 117 ∷ 116 ∷ 104 ∷ 77 ∷ 101 ∷ 116 ∷ 104 ∷ 111 ∷ 100 ∷ [], auth_method)
    ∷ (83 ∷ 101 ∷ 115 ∷ 115 ∷ 105 ∷ 111 ∷ 110 ∷ 84 ∷ 121 ∷ 112 ∷ 101 ∷ [], session_type)
    ∷ (84 ∷ 97 ∷ 114 ∷ 103 ∷ 101 ∷ 116 ∷ 78 ∷ 97 ∷ 109 ∷ 101 ∷ [], target_name)
    ∷ (84 ∷ 97 ∷ 114 ∷ 103 ∷ 101 ∷ 116 ∷ 65 ∷ 108 ∷ 105 ∷ 97 ∷ 115 ∷ [], target_alias)
    ∷ (72 ∷ 101 ∷ 97 ∷ 100 ∷ 101 ∷ 114 ∷ 68 ∷ 105 ∷ 103 ∷ 101 ∷ 115 ∷ 116 ∷ [], header_digest)
    ∷ (68 ∷ 97 ∷ 116 ∷ 97 ∷ 68 ∷ 105 ∷ 103 ∷ 101 ∷ 115 ∷ 116 ∷ [], data_digest)
    ∷ (
      77 ∷ 97 ∷ 120 ∷ 82 ∷ 101 ∷ 99 ∷ 118 ∷ 68 ∷ 97 ∷ 116 ∷ 97 ∷ 83 ∷ 101 ∷ 103 ∷ 109 ∷ 101 ∷ 110
          ∷ 116 ∷ 76 ∷ 101 ∷ 110 ∷ 103 ∷ 116 ∷ 104 ∷ [],
      max_recv_data_segment_length,
    )
    ∷ (
      68 ∷ 101 ∷ 102 ∷ 97 ∷ 117 ∷ 108 ∷ 116 ∷ 84 ∷ 105 ∷ 109 ∷ 101 ∷ 50 ∷ 87 ∷ 97 ∷ 105 ∷ 116 ∷ [],
      default_time2wait,
    )
    ∷ (
      68 ∷ 101 ∷ 102 ∷ 97 ∷ 117 ∷ 108 ∷ 116 ∷ 84 ∷ 105 ∷ 109 ∷ 101 ∷ 50 ∷ 82 ∷ 101 ∷ 116 ∷ 97 ∷ 105
          ∷ 110 ∷ [],
      default_time2retain,
    )
    ∷ (
      69 ∷ 114 ∷ 114 ∷ 111 ∷ 114 ∷ 82 ∷ 101 ∷ 99 ∷ 111 ∷ 118 ∷ 101 ∷ 114 ∷ 121 ∷ 76 ∷ 101 ∷ 118
          ∷ 101 ∷ 108 ∷ [],
      error_recovery_level,
    )
    ∷ (
      77 ∷ 97 ∷ 120 ∷ 67 ∷ 111 ∷ 110 ∷ 110 ∷ 101 ∷ 99 ∷ 116 ∷ 105 ∷ 111 ∷ 110 ∷ 115 ∷ [],
      max_connections,
    )
    ∷ (
      77 ∷ 97 ∷ 120 ∷ 66 ∷ 117 ∷ 114 ∷ 115 ∷ 116 ∷ 76 ∷ 101 ∷ 110 ∷ 103 ∷ 116 ∷ 104 ∷ [],
      max_burst_length,
    )
    ∷ (
      70 ∷ 105 ∷ 114 ∷ 115 ∷ 116 ∷ 66 ∷ 117 ∷ 114 ∷ 115 ∷ 116 ∷ 76 ∷ 101 ∷ 110 ∷ 103 ∷ 116 ∷ 104
          ∷ [],
      first_burst_length,
    )
    ∷ (
      77 ∷ 97 ∷ 120 ∷ 79 ∷ 117 ∷ 116 ∷ 115 ∷ 116 ∷ 97 ∷ 110 ∷ 100 ∷ 105 ∷ 110 ∷ 103 ∷ 82 ∷ 50 ∷ 84
          ∷ [],
      max_outstanding_r2t,
    )
    ∷ (73 ∷ 110 ∷ 105 ∷ 116 ∷ 105 ∷ 97 ∷ 108 ∷ 82 ∷ 50 ∷ 84 ∷ [], initial_r2t)
    ∷ (73 ∷ 109 ∷ 109 ∷ 101 ∷ 100 ∷ 105 ∷ 97 ∷ 116 ∷ 101 ∷ 68 ∷ 97 ∷ 116 ∷ 97 ∷ [], immediate_data)
    ∷ (
      68 ∷ 97 ∷ 116 ∷ 97 ∷ 80 ∷ 68 ∷ 85 ∷ 73 ∷ 110 ∷ 79 ∷ 114 ∷ 100 ∷ 101 ∷ 114 ∷ [],
      data_pdu_in_order,
    )
    ∷ (
      68 ∷ 97 ∷ 116 ∷ 97 ∷ 83 ∷ 101 ∷ 113 ∷ 117 ∷ 101 ∷ 110 ∷ 99 ∷ 101 ∷ 73 ∷ 110 ∷ 79 ∷ 114 ∷ 100
          ∷ 101 ∷ 114 ∷ [],
      data_sequence_in_order,
    )
    ∷ (73 ∷ 70 ∷ 77 ∷ 97 ∷ 114 ∷ 107 ∷ 101 ∷ 114 ∷ [], if_marker)
    ∷ (79 ∷ 70 ∷ 77 ∷ 97 ∷ 114 ∷ 107 ∷ 101 ∷ 114 ∷ [], of_marker)
    ∷ (
      88 ∷ 45 ∷ 99 ∷ 111 ∷ 109 ∷ 46 ∷ 99 ∷ 105 ∷ 115 ∷ 99 ∷ 111 ∷ 46 ∷ 80 ∷ 105 ∷ 110 ∷ 103 ∷ 84
          ∷ 105 ∷ 109 ∷ 101 ∷ 111 ∷ 117 ∷ 116 ∷ [],
      ping_timeout,
    )
    ∷ (
      88 ∷ 45 ∷ 99 ∷ 111 ∷ 109 ∷ 46 ∷ 99 ∷ 105 ∷ 115 ∷ 99 ∷ 111 ∷ 46 ∷ 115 ∷ 101 ∷ 110 ∷ 100 ∷ 65
          ∷ 115 ∷ 121 ∷ 110 ∷ 99 ∷ 84 ∷ 101 ∷ 120 ∷ 116 ∷ [],
      send_async_text,
    )
    ∷ (
      88 ∷ 45 ∷ 99 ∷ 111 ∷ 109 ∷ 46 ∷ 99 ∷ 105 ∷ 115 ∷ 99 ∷ 111 ∷ 46 ∷ 112 ∷ 114 ∷ 111 ∷ 116 ∷ 111
          ∷ 99 ∷ 111 ∷ 108 ∷ [],
      protocol,
    )
    ∷ []

abbrev pub find_key : Text → List (Text × Key) → Option Key
find_key t [] = none
find_key t ((n, k) ∷ l) = if same n t then some k else find_key t l

-- The loop of `handle` over the data segment, with `parsePair`: whether every pair is valid, and the
-- pairs; `none` is an exception of a cast. Each round takes a byte of `dlength` at least.
module _ (cast64 : Text → Option ℕ) (config : Config) where
  abbrev pub with_pair :
      Key × Text → Option (Bool × List (Key × Text)) → Option (Bool × List (Key × Text))
  with_pair p none = none
  with_pair p (some (ok, l)) = some (ok, p ∷ l)

  unfoldable pub parse_pairs : ℕ → ℕ → Text → Option (Bool × List (Key × Text))
  unfolding valid
  parse_pairs zero dlength t = some (true, [])
  parse_pairs (suc fuel) dlength t =
      let (str, rest) = c_string t in
      let (name, v) = get_key_value_pair str in
      let more = parse_pairs fuel (dlength - (length str + 1)) rest in
      if dlength == 0 then some (true, []) else elim (find_key name key_names) [
        | none ↦ some (false, [])
        | some k ↦ elim (valid cast64 config k v) [
          | none ↦ none
          | some ok ↦ if ok then with_pair (k, v) more else some (false, [])
        ]
      ]

-- `getPairValue`
abbrev pub get_pair_value : Key → List (Key × Text) → Text
get_pair_value k [] = []
get_pair_value k ((j, v) ∷ l) = if key_eq j k then v else get_pair_value k l
