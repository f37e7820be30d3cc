-- ===== src/KeyValue.antt =====
-- src/iscsi/keyvalue.cpp and include/iscsi/keyvalue.h, include/validator.h: the keys of a login, which
-- values they take (here) and what their handlers negotiate (Handlers). A text is the list of its
-- bytes. The lexical_casts of boost to numbers are arguments.
pub mod Handlers
pub mod Values
use sstoraged.Common.{
  ℕ, zero, suc, ◌+◌, ◌-◌, min, max, Bool, true, false, not, ◌&&◌, ◌||◌, ltb, leb, ◌==◌,
  if◌then◌else◌, Option, none, some, List, [], ◌∷◌, ◌++◌, length,
}

abbrev pub Text : Type 0
Text = List ℕ

abbrev pub same : Text → Text → Bool
same [] [] = true
same [] (y ∷ t) = false
same (x ∷ s) [] = false
same (x ∷ s) (y ∷ t) = x == y && same s t

abbrev pub starts_with : Text → Text → Bool
starts_with [] t = true
starts_with (x ∷ s) [] = false
starts_with (x ∷ s) (y ∷ t) = x == y && starts_with s t

-- `value.find(s) != value.npos`
abbrev pub contains : Text → Text → Bool
contains s [] = starts_with s []
contains s (y ∷ t) = starts_with s (y ∷ t) || contains s t

-- Comparison of as many bytes as the first text has, without regard to case.
abbrev pub lower : ℕ → ℕ
lower c = if leb 65 c && leb c 90 then c + 32 else c

abbrev pub starts_nocase : Text → Text → Bool
starts_nocase [] t = true
starts_nocase (x ∷ s) [] = false
starts_nocase (x ∷ s) (y ∷ t) = lower x == lower y && starts_nocase s t

abbrev pub yes : Text
yes = 89 ∷ 101 ∷ 115 ∷ []

abbrev pub no : Text
no = 78 ∷ 111 ∷ []

abbrev pub none_text : Text
none_text = 78 ∷ 111 ∷ 110 ∷ 101 ∷ []

abbrev pub chap : Text
chap = 67 ∷ 72 ∷ 65 ∷ 80 ∷ []

abbrev pub chap_none : Text
chap_none = 67 ∷ 72 ∷ 65 ∷ 80 ∷ 44 ∷ 78 ∷ 111 ∷ 110 ∷ 101 ∷ []

abbrev pub crc32c : Text
crc32c = 67 ∷ 82 ∷ 67 ∷ 51 ∷ 50 ∷ 67 ∷ []

abbrev pub none_crc32c : Text
none_crc32c = 78 ∷ 111 ∷ 110 ∷ 101 ∷ 44 ∷ 67 ∷ 82 ∷ 67 ∷ 51 ∷ 50 ∷ 67 ∷ []

abbrev pub crc32c_none : Text
crc32c_none = 67 ∷ 82 ∷ 67 ∷ 51 ∷ 50 ∷ 67 ∷ 44 ∷ 78 ∷ 111 ∷ 110 ∷ 101 ∷ []

abbrev pub comma_none : Text
comma_none = 44 ∷ 78 ∷ 111 ∷ 110 ∷ 101 ∷ []

abbrev pub discovery : Text
discovery = 68 ∷ 105 ∷ 115 ∷ 99 ∷ 111 ∷ 118 ∷ 101 ∷ 114 ∷ 121 ∷ []

abbrev pub normal : Text
normal = 78 ∷ 111 ∷ 114 ∷ 109 ∷ 97 ∷ 108 ∷ []

-- The keys with a validator and a handler.
pub data Key : Type 0 where
  initiator_name initiator_alias auth_method session_type target_name target_alias : Key
  header_digest data_digest max_recv_data_segment_length default_time2wait default_time2retain
        error_recovery_level :
      Key
  max_connections max_burst_length first_burst_length max_outstanding_r2t initial_r2t
        immediate_data :
      Key
  data_pdu_in_order data_sequence_in_order if_marker of_marker ping_timeout send_async_text
        protocol :
      Key

unfoldable pub key_code : Key → ℕ
key_code initiator_name = 0
key_code initiator_alias = 1
key_code auth_method = 2
key_code session_type = 3
key_code target_name = 4
key_code target_alias = 5
key_code header_digest = 6
key_code data_digest = 7
key_code max_recv_data_segment_length = 8
key_code default_time2wait = 9
key_code default_time2retain = 10
key_code error_recovery_level = 11
key_code max_connections = 12
key_code max_burst_length = 13
key_code first_burst_length = 14
key_code max_outstanding_r2t = 15
key_code initial_r2t = 16
key_code immediate_data = 17
key_code data_pdu_in_order = 18
key_code data_sequence_in_order = 19
key_code if_marker = 20
key_code of_marker = 21
key_code ping_timeout = 22
key_code send_async_text = 23
key_code protocol = 24

abbrev pub key_eq : Key → Key → Bool
key_eq a b = key_code a == key_code b

-- `Configurator`, and the initiators that are configured.
pub record Config : Type 0 where
  pub initiators : List Text
  pub target_name : Text
  pub header_digest : Text
  pub data_digest : Text

abbrev pub known : Text → List Text → Bool
known s [] = false
known s (t ∷ l) = same s t || known s l

-- `RangeCastValidator`; `none` is an exception of the cast.
abbrev pub in_range : ℕ → ℕ → Option ℕ → Option Bool
in_range low high none = none
in_range low high (some n) = some (leb low n && leb n high)

abbrev pub bool_text : Text → Bool
bool_text v = same v no || same v yes

abbrev pub digest_text : Text → Bool
digest_text v = same v none_text || (same v none_crc32c || same v crc32c_none)

-- The validators of the keys, as LoginParser sets them.
module _ (cast64 : Text → Option ℕ) (config : Config) where
  abbrev pub short : Text → Bool → Option Bool
  short v b = some (leb (length v) 255 && b)

  unfoldable pub valid : Key → Text → Option Bool
  valid initiator_name v = short v (known v config.initiators)
  valid initiator_alias v = short v true
  valid auth_method v = short v (same v none_text || same v chap_none)
  valid session_type v = short v (same v discovery || same v normal)
  valid target_name v = short v (starts_nocase v config.target_name)
  valid target_alias v = short v true
  valid header_digest v = short v (digest_text v)
  valid data_digest v = short v (digest_text v)
  valid max_recv_data_segment_length v = in_range 512 16777215 (cast64 v)
  valid default_time2wait v = in_range 0 3600 (cast64 v)
  valid default_time2retain v = in_range 0 3600 (cast64 v)
  valid error_recovery_level v = in_range 0 2 (cast64 v)
  valid max_connections v = in_range 1 65535 (cast64 v)
  valid max_burst_length v = in_range 512 16777215 (cast64 v)
  valid first_burst_length v = in_range 512 16777215 (cast64 v)
  valid max_outstanding_r2t v = in_range 1 65535 (cast64 v)
  valid initial_r2t v = short v (bool_text v)
  valid immediate_data v = short v (bool_text v)
  valid data_pdu_in_order v = short v (bool_text v)
  valid data_sequence_in_order v = short v (bool_text v)
  valid if_marker v = short v (bool_text v)
  valid of_marker v = short v (bool_text v)
  valid ping_timeout v = short v true
  valid send_async_text v = short v true
  valid protocol v = short v true
