-- ===== src/Login/Stages.antt =====
-- src/iscsi/login.cpp: which handlers a session gets, over every sequence of login requests.
use sstoraged.Common.{
  ℕ, ◌≡◌, refl, sym, subst, Bool, true, ◌==◌, ◌||◌, if_cases, List, [], ◌∷◌, All, arith, ◌⊎◌, inl,
  inr,
}
use sstoraged.Dispatch.{
  SessionType, session_login, session_discovery, session_normal, Handlers, member,
  shift_to_discovery, shift_to_normal,
}
use sstoraged.KeyValue.{Text, Key, session_type}
use sstoraged.Login.{
  LoginReq, LoginSession, Manager, OldSession, First, take_over, handle_1st_normal,
  handle_1st_discovery, handle_1st, first_request, set_type, is_login, type_of, shift_status, enter,
  shift_login_stage,
}
use sstoraged.Login.Pairs.{get_pair_value}

-- The opcodes that a session of a type may have handlers for: LOGIN; TEXT and LOGOUT; or SCSI commands,
-- Data-Out, NOP, task management and LOGOUT.
abbrev pub allowed : SessionType → List ℕ
allowed session_login = 0x03 ∷ []
allowed session_discovery = 0x03 ∷ 0x04 ∷ 0x06 ∷ []
allowed session_normal = 0x03 ∷ 0x01 ∷ 0x05 ∷ 0x00 ∷ 0x20 ∷ 0x02 ∷ 0x06 ∷ []

abbrev pub Safe : Handlers → Type 0
Safe h = All (λ k. member k (allowed h.type) ≡ true) h.protos

take_over-handlers :
    (fd : ℕ) (req : LoginReq) (old : OldSession) (s : LoginSession) (m : Manager)
    → (take_over fd req old s m).2.handlers ≡ s.handlers
unfolding take_over
take_over-handlers fd req old s m = ground arith

pub handle_1st-handlers :
    (fd : ℕ) (req : LoginReq) (s : LoginSession) (m : Manager)
    → (handle_1st fd req s m).2.handlers ≡ s.handlers
unfolding handle_1st handle_1st_normal handle_1st_discovery
handle_1st-handlers fd req s m =
    let h : (o : OldSession) → (take_over fd req o s m).2.handlers ≡ s.handlers =
      λ o. take_over-handlers fd req o s m in
    ground (arith, h)

login_in-allowed :
    (t : SessionType) (k : ℕ) → member k (0x03 ∷ []) ≡ true → member k (allowed t) ≡ true
login_in-allowed t k h = ground (arith, h)

All-map : {P Q : ℕ → Type 0} (l : List ℕ) → ((k : ℕ) → P k → Q k) → All P l → All Q l
All-map [] f h = tt
All-map (x ∷ l) f (h, k) = (f x h, All-map l f k)

is_login-login : (t : SessionType) → is_login t ≡ true → t ≡ session_login
is_login-login session_login e = refl
is_login-login session_discovery e = absurd (ground (arith, e))
is_login-login session_normal e = absurd (ground (arith, e))

pub first_request-Safe :
    (fd : ℕ) (req : LoginReq) (pairs : List (Key × Text)) (s : LoginSession) (m : Manager)
    → Safe s.handlers
    → Safe (first_request fd req pairs s m).2.handlers
unfolding first_request
first_request-Safe fd req pairs s m h =
    let t = type_of (get_pair_value session_type pairs) in
    if_cases (λ (r : First). Safe r.2.handlers) (is_login s.handlers.type) _ _
      (λ e. subst Safe (sym (handle_1st-handlers fd req (set_type t s) m)) (
        All-map s.handlers.protos
          (λ k q.
            login_in-allowed t k
              (subst (λ x. member k (allowed x) ≡ true) (is_login-login s.handlers.type e) q))
          h))
      (λ e. h)

enter-Safe :
    (t : SessionType) (protos : List ℕ) (maxcmdsn : ℕ) (s : LoginSession) (m : Manager)
    → All (λ k. member k (allowed t) ≡ true) protos
    → Safe
        (enter (
          record s { handlers = record { type = t; protos = protos; maxcmdsn = maxcmdsn } },
          m,
        )).1.handlers
unfolding enter shift_to_normal shift_to_discovery
enter-Safe session_login protos maxcmdsn s m h = h
enter-Safe session_discovery protos maxcmdsn s m h = (refl, (refl, h))
enter-Safe session_normal protos maxcmdsn s m h = (refl, (refl, (refl, (refl, (refl, (refl, h))))))

pub shift_status-Safe :
    (nsg : ℕ) (s : LoginSession) (m : Manager)
    → Safe s.handlers
    → Safe (shift_status nsg s m).1.handlers
unfolding shift_status enter
shift_status-Safe nsg s m h =
    let P = λ (r : Bool × LoginSession × Manager). Safe r.1.handlers in
    let e = λ (t : LoginSession) (n : Manager) (k : Safe t.handlers).
      enter-Safe t.handlers.type t.handlers.protos t.handlers.maxcmdsn t n k in
    if_cases P (nsg == 0 || nsg == 1) _ _ (λ q. h)
      (λ q.
        if_cases P (nsg == 3) _ _
          (λ r.
            if_cases (λ x. Safe (enter x).1.handlers) (s.tsih == 0) _ _ (λ z. e _ _ h)
              (λ z. e _ _ h))
          (λ r. h))

-- What a session that has entered the full feature phase has handlers for.
abbrev pub Entered : Handlers → Type 0
Entered h = elim h.type [
  | session_login ↦ ⊥
  | session_discovery ↦ All (λ k. member k h.protos ≡ true) (0x04 ∷ 0x06 ∷ [])
  | session_normal ↦
      All (λ k. member k h.protos ≡ true) (0x01 ∷ 0x05 ∷ 0x00 ∷ 0x20 ∷ 0x02 ∷ 0x06 ∷ [])
]

-- A step of the stages: to the negotiation of operational parameters, with the handlers there were, or
-- to the full feature phase, with those of the type.
abbrev pub Staged : LoginReq → List ℕ → Handlers → Type 0
Staged req protos h =
    ((req.current_stage ≡ 0) × ((req.next_stage ≡ 1) × (h.protos ≡ protos)))
    ⊎ (((req.current_stage ≡ 0) ⊎ (req.current_stage ≡ 1)) × ((req.next_stage ≡ 3) × Entered h))

enter-Entered :
    (t : SessionType) (protos : List ℕ) (maxcmdsn : ℕ) (s : LoginSession) (m : Manager)
    → (let r =
          enter (
            record s { handlers = record { type = t; protos = protos; maxcmdsn = maxcmdsn } },
            m,
          ) in
        r.0 ≡ true → Entered r.1.handlers)
unfolding enter shift_to_normal shift_to_discovery
enter-Entered session_login protos maxcmdsn s m h = absurd (ground (arith, h))
enter-Entered session_discovery protos maxcmdsn s m h = (refl, (refl, tt))
enter-Entered session_normal protos maxcmdsn s m h =
    (refl, (refl, (refl, (refl, (refl, (refl, tt))))))

abbrev pub Status : ℕ → List ℕ → Bool × LoginSession × Manager → Type 0
Status nsg protos r =
    r.0 ≡ true
    → (((nsg ≡ 0) ⊎ (nsg ≡ 1)) × (r.1.handlers.protos ≡ protos))
      ⊎ ((nsg ≡ 3) × Entered r.1.handlers)

pub shift_status-Status :
    (nsg : ℕ) (s : LoginSession) (m : Manager) → Status nsg s.handlers.protos (shift_status nsg s m)
unfolding shift_status enter
shift_status-Status nsg s m =
    let P = Status nsg s.handlers.protos in
    let e = λ (t : LoginSession) (n : Manager).
      enter-Entered t.handlers.type t.handlers.protos t.handlers.maxcmdsn t n in
    if_cases P (nsg == 0 || nsg == 1) _ _ (λ q o. inl (ground (arith, q), refl))
      (λ q.
        if_cases P (nsg == 3) _ _
          (λ r.
            if_cases (λ x. Status nsg s.handlers.protos (enter x)) (s.tsih == 0) _ _
              (λ z o. inr (ground (arith, r), e _ _ o)) (λ z o. inr (ground (arith, r), e _ _ o)))
          (λ r o. absurd (ground (arith, o))))

pub stage_cases :
    (csg nsg : ℕ)
    → (((shift_login_stage csg nsg ≡ 0) ⊎ (shift_login_stage csg nsg ≡ 1)) → (csg ≡ 0) × (nsg ≡ 1))
      × ((shift_login_stage csg nsg ≡ 3) → ((csg ≡ 0) ⊎ (csg ≡ 1)) × (nsg ≡ 3))
unfolding shift_login_stage
stage_cases csg nsg = ground arith
