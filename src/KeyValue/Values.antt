-- ===== src/KeyValue/Values.antt =====
-- src/iscsi/keyvalue.cpp: the values that the handlers of the keys agree on, against the table of RFC
-- 3720 for them.
use sstoraged.Common.{
  ℕ, ◌≡◌, refl, min, max, Bool, true, false, ◌&&◌, ◌||◌, Option, none, some, List, [], ◌∷◌, ◌++◌,
  arith,
}
use sstoraged.Dispatch.{session_normal}
use sstoraged.KeyValue.{
  Text, same, yes, Config, Key, key_eq, default_time2wait, default_time2retain,
  error_recovery_level, max_connections, max_burst_length, first_burst_length, max_outstanding_r2t,
  initial_r2t, immediate_data, data_pdu_in_order, data_sequence_in_order, if_marker, of_marker,
}
use sstoraged.KeyValue.Handlers.{
  Attr, attr_number, attr_flag, get_attr, set_attr, Value, value_number, value_text, yes_no,
  reply_key, Negotiation, negotiate_number, negotiate_flag, handle_pair,
}

-- The result of a number, of the target's and the initiator's: the larger time to wait, the smaller of
-- the others.
abbrev pub number_rule : Key → ℕ → ℕ → Option ℕ
number_rule k n m = elim k [
  | default_time2wait ↦ some (max n m)
  | default_time2retain ↦ some (min n m)
  | error_recovery_level ↦ some (min n m)
  | max_connections ↦ some (min n m)
  | max_burst_length ↦ some (min n m)
  | first_burst_length ↦ some (min n m)
  | max_outstanding_r2t ↦ some (min n m)
  | _ ↦ none
]

abbrev pub flag_rule : Key → Bool → Bool → Option Bool
flag_rule k a b = elim k [
  | initial_r2t ↦ some (a || b)
  | data_pdu_in_order ↦ some (a || b)
  | data_sequence_in_order ↦ some (a || b)
  | immediate_data ↦ some (a && b)
  | if_marker ↦ some (a && b)
  | of_marker ↦ some (a && b)
  | _ ↦ none
]

get_attr-set_attr :
    (k : Key) (a : Attr) (l : List (Key × Attr)) → get_attr k (set_attr k a l) ≡ some a
get_attr-set_attr k a [] = ground arith
get_attr-set_attr k a ((j, b) ∷ l) = ground (arith, get_attr-set_attr k a l)

get_attr-set_other :
    (j k : Key) (a : Attr) (l : List (Key × Attr))
    → key_eq k j ≡ false
    → get_attr j (set_attr k a l) ≡ get_attr j l
get_attr-set_other j k a [] h = ground (arith, h)
get_attr-set_other j k a ((i, b) ∷ l) h = ground (arith, h, get_attr-set_other j k a l h)

-- Both sides agree on `a` for a key: it is stored, the reply says so, and nothing else changes.
abbrev pub Agreed : Key → Attr → Value → Negotiation → Option (Bool × Negotiation) → Type 0
Agreed k a v s none = ⊥
Agreed k a v s (some (ok, s')) =
    (ok ≡ true)
    × ((get_attr k s'.attrs ≡ some a)
        × (((j : Key) → key_eq k j ≡ false → get_attr j s'.attrs ≡ get_attr j s.attrs)
            × ((s'.reply ≡ s.reply ++ (reply_key k, v) ∷ [])
                × ((s'.type ≡ s.type) × (s'.initiator ≡ s.initiator)))))

negotiate_number-Agreed :
    (op : ℕ → ℕ → ℕ) (old : ℕ) (only : Bool) (k : Key) (n m : ℕ) (s : Negotiation)
    → s.type ≡ session_normal
    → get_attr k s.attrs ≡ some (attr_number n)
    → Agreed k
        (attr_number (op n m))
        (value_number (op n m))
        s
        (negotiate_number op old only k (some m) s)
unfolding negotiate_number
negotiate_number-Agreed op old true k n m s t e =
    rw (t, e, negotiate_number)
      (
        refl,
        (
          get_attr-set_attr k _ s.attrs,
          (λ j h. get_attr-set_other j k _ s.attrs h, (refl, (t, refl))),
        ),
      )
negotiate_number-Agreed op old false k n m s t e =
    rw (e, negotiate_number)
      (
        refl,
        (
          get_attr-set_attr k _ s.attrs,
          (λ j h. get_attr-set_other j k _ s.attrs h, (refl, (refl, refl))),
        ),
      )

negotiate_flag-Agreed :
    (op : Bool → Bool → Bool) (only : Bool) (k : Key) (b : Bool) (v : Text) (s : Negotiation)
    → s.type ≡ session_normal
    → get_attr k s.attrs ≡ some (attr_flag b)
    → Agreed k
        (attr_flag (op b (same v yes)))
        (value_text (yes_no (op b (same v yes))))
        s
        (negotiate_flag op only k v s)
unfolding negotiate_flag
negotiate_flag-Agreed op true k b v s t e =
    rw (t, e, negotiate_flag)
      (
        refl,
        (
          get_attr-set_attr k _ s.attrs,
          (λ j h. get_attr-set_other j k _ s.attrs h, (refl, (t, refl))),
        ),
      )
negotiate_flag-Agreed op false k b v s t e =
    rw (e, negotiate_flag)
      (
        refl,
        (
          get_attr-set_attr k _ s.attrs,
          (λ j h. get_attr-set_other j k _ s.attrs h, (refl, (refl, refl))),
        ),
      )

number-Agreed :
    (op : ℕ → ℕ → ℕ) (old : ℕ) (only : Bool) (k : Key) (n m r : ℕ) (o : Option ℕ) (s : Negotiation)
    → some (op n m) ≡ some r
    → s.type ≡ session_normal
    → get_attr k s.attrs ≡ some (attr_number n)
    → o ≡ some m
    → Agreed k (attr_number r) (value_number r) s (negotiate_number op old only k o s)
number-Agreed op old only k n m r o s e t a c =
    let q : op n m ≡ r = ground (arith, e) in
    rw (← q, c) (negotiate_number-Agreed op old only k n m s t a)

flag-Agreed :
    (op : Bool → Bool → Bool) (only : Bool) (k : Key) (b r : Bool) (v : Text) (s : Negotiation)
    → some (op b (same v yes)) ≡ some r
    → s.type ≡ session_normal
    → get_attr k s.attrs ≡ some (attr_flag b)
    → Agreed k (attr_flag r) (value_text (yes_no r)) s (negotiate_flag op only k v s)
flag-Agreed op only k b r v s e t a =
    let q : op b (same v yes) ≡ r = ground (arith, e) in
    rw (← q) (negotiate_flag-Agreed op only k b v s t a)

module _ (cast32 : Text → Option ℕ) (config : Config) (opens : Text → Bool) (garbage : ℕ) where
  -- In a normal session, the handler of a key with a numeric value, for which the session has a number
  -- and the value is the text of one, agrees on what the rule of the key says: the larger
  -- DefaultTime2Wait, the smaller of the others. It stores that, replies just that, and leaves the
  -- other attributes, the type and the initiator as they are.
  pub handle_pair-number :
      (k : Key) (v : Text) (n m r : ℕ) (s : Negotiation)
      → number_rule k n m ≡ some r
      → s.type ≡ session_normal
      → get_attr k s.attrs ≡ some (attr_number n)
      → cast32 v ≡ some m
      → Agreed k (attr_number r) (value_number r) s (handle_pair cast32 config opens garbage k v s)
  unfolding handle_pair
  handle_pair-number default_time2wait v n m r s e t a c =
      number-Agreed max 0 false default_time2wait n m r (cast32 v) s e t a c
  handle_pair-number default_time2retain v n m r s e t a c =
      number-Agreed min garbage false default_time2retain n m r (cast32 v) s e t a c
  handle_pair-number error_recovery_level v n m r s e t a c =
      number-Agreed min garbage false error_recovery_level n m r (cast32 v) s e t a c
  handle_pair-number max_connections v n m r s e t a c =
      number-Agreed min 0 true max_connections n m r (cast32 v) s e t a c
  handle_pair-number max_burst_length v n m r s e t a c =
      number-Agreed min 0 true max_burst_length n m r (cast32 v) s e t a c
  handle_pair-number first_burst_length v n m r s e t a c =
      number-Agreed min 0 true first_burst_length n m r (cast32 v) s e t a c
  handle_pair-number max_outstanding_r2t v n m r s e t a c =
      number-Agreed min 0 true max_outstanding_r2t n m r (cast32 v) s e t a c
  handle_pair-number k v n m r s e t a c = absurd (ground (arith, e))

  -- The same for the keys with a flag: InitialR2T and the two orders are agreed on as the disjunction,
  -- ImmediateData and the markers as the conjunction, and the reply is Yes or No.
  pub handle_pair-flag :
      (k : Key) (v : Text) (b r : Bool) (s : Negotiation)
      → flag_rule k b (same v yes) ≡ some r
      → s.type ≡ session_normal
      → get_attr k s.attrs ≡ some (attr_flag b)
      → Agreed k
          (attr_flag r)
          (value_text (yes_no r))
          s
          (handle_pair cast32 config opens garbage k v s)
  unfolding handle_pair
  handle_pair-flag initial_r2t v b r s e t a =
      flag-Agreed (λ a b. a || b) true initial_r2t b r v s e t a
  handle_pair-flag data_pdu_in_order v b r s e t a =
      flag-Agreed (λ a b. a || b) true data_pdu_in_order b r v s e t a
  handle_pair-flag data_sequence_in_order v b r s e t a =
      flag-Agreed (λ a b. a || b) true data_sequence_in_order b r v s e t a
  handle_pair-flag immediate_data v b r s e t a =
      flag-Agreed (λ a b. a && b) true immediate_data b r v s e t a
  handle_pair-flag if_marker v b r s e t a =
      flag-Agreed (λ a b. a && b) false if_marker b r v s e t a
  handle_pair-flag of_marker v b r s e t a =
      flag-Agreed (λ a b. a && b) false of_marker b r v s e t a
  handle_pair-flag k v b r s e t a = absurd (ground (arith, e))
