-- ===== src/Login/Requests.antt =====
-- src/iscsi/login.cpp: a login request, and every sequence of them.
use sstoraged.Common.{
  ℕ, ◌≡◌, refl, ap, subst, Bool, true, false, if_cases, Option, none, some, List, [], ◌∷◌, arith,
  inl, inr,
}
use sstoraged.Counter.{next_sn}
use sstoraged.Limitter.{LinearLimitter, Window}
use sstoraged.Dispatch.{session_login, Handlers}
use sstoraged.KeyValue.{Text, Key, Config}
use sstoraged.KeyValue.Handlers.{Negotiation}
use sstoraged.Login.{
  LoginReq, LoginRsp, LoginTask, LoginSession, Manager, First, first_request, shift_status,
  is_login, set_type, advance_window, conclude, reply_to, begin, handle_login, shift_login_stage,
  windowed, handle_pairs, negotiation, negotiated, answer, login_reply, login_valid,
}
use sstoraged.Login.Pairs.{parse_pairs}
use sstoraged.Login.Stages.{
  Safe, Staged, Status, stage_cases, shift_status-Status, shift_status-Safe, first_request-Safe,
  handle_1st-handlers,
}

-- What a request leads to, from the opcodes with handlers before.
abbrev pub Result : LoginReq → List ℕ → Option (Bool × LoginSession × Manager) → Type 0
Result req protos none = Unit
Result req protos (some (ok, s, m)) = Safe s.handlers × (ok ≡ true → Staged req protos s.handlers)

refused :
    (req : LoginReq) (protos : List ℕ) (s : LoginSession) (m : Manager)
    → Safe s.handlers
    → Result req protos (some (false, s, m))
refused req protos s m h = (h, λ e. absurd (ground (arith, e)))

first_request-protos :
    (fd : ℕ) (req : LoginReq) (pairs : List (Key × Text)) (s : LoginSession) (m : Manager)
    → (first_request fd req pairs s m).2.handlers.protos ≡ s.handlers.protos
unfolding first_request
first_request-protos fd req pairs s m =
    if_cases (λ (r : First). r.2.handlers.protos ≡ s.handlers.protos) (is_login s.handlers.type) _ _
      (λ e. ap (λ (h : Handlers). h.protos) (handle_1st-handlers fd req (set_type _ s) m))
      (λ e. refl)

Staged-shift :
    (req : LoginReq) (protos : List ℕ) (r : Bool × LoginSession × Manager)
    → Status (shift_login_stage req.current_stage req.next_stage) protos r
    → r.0 ≡ true
    → Staged req protos r.1.handlers
Staged-shift req protos r h o =
    let c = stage_cases req.current_stage req.next_stage in
    elim (h o) [
      | inl (n, e) ↦ let (a, b) = c.0 n in inl (a, (b, e))
      | inr (n, e) ↦ let (a, b) = c.1 n in inr (a, (b, e))
    ]

module _ (merge : List LoginTask → List LoginTask → List LoginTask) where
  answer-Result :
      (req : LoginReq) (protos : List ℕ) (reply : LoginRsp) (tasks : List LoginTask)
      (r : Bool × LoginSession × Manager)
      → Safe r.1.handlers
      → (r.0 ≡ true → Staged req protos r.1.handlers)
      → Result req protos (answer merge reply tasks r)
  answer-Result req protos reply tasks (false, s, m) h k = (h, k)
  answer-Result req protos reply tasks (true, s, m) h k = (h, k)

  module _ (cast64 cast32 : Text → Option ℕ) (config : Config) (opens : Text → Bool) (garbage : ℕ)
      (fuel : ℕ) (limitter : LinearLimitter) (poolnum : ℕ) (sizes : List ℕ) where
    conclude-Result :
        (req : LoginReq) (reply : LoginRsp) (tasks : List LoginTask) (s : LoginSession)
        (m : Manager) (o : Option (Bool × Negotiation))
        → Safe s.handlers
        → Result req s.handlers.protos (
            conclude cast64 cast32 config opens garbage merge fuel limitter poolnum sizes req
              (shift_login_stage req.current_stage req.next_stage)
              reply
              tasks
              s
              m
              o)
    unfolding conclude
    conclude-Result req reply tasks s m none h = tt
    conclude-Result req reply tasks s m (some (false, n)) h =
        refused req s.handlers.protos (negotiated n s) m h
    conclude-Result req reply tasks s m (some (true, n)) h =
        let nsg = shift_login_stage req.current_stage req.next_stage in
        let r = shift_status nsg (negotiated n s) m in
        answer-Result req s.handlers.protos (record reply { pairs = n.reply }) tasks r
          (shift_status-Safe nsg (negotiated n s) m h)
          (Staged-shift req s.handlers.protos r (shift_status-Status nsg (negotiated n s) m))

    reply_with :
        LoginReq
        → List (Key × Text)
        → List LoginTask
        → Manager
        → Option LoginSession
        → Option (Bool × LoginSession × Manager)
    reply_with = reply_to cast64 cast32 config opens garbage merge fuel limitter poolnum sizes

    send-Result :
        (req : LoginReq) (pairs : List (Key × Text)) (tasks : List LoginTask) (m : Manager)
        (s : LoginSession)
        → Safe s.handlers
        → Result req s.handlers.protos (reply_with req pairs tasks m (some s))
    unfolding reply_with reply_to
    send-Result req pairs tasks m s h =
        let nsg = shift_login_stage req.current_stage req.next_stage in
        let sent : LoginSession = record s { statsn = (next_sn s.statsn).1 } in
        conclude-Result req (login_reply req nsg s) tasks sent m
          (handle_pairs cast64 cast32 config opens garbage merge fuel limitter poolnum sizes pairs
            pairs (negotiation sent))
          h

    window-Result :
        (req : LoginReq) (pairs : List (Key × Text)) (tasks : List LoginTask) (m : Manager)
        (s : LoginSession) (o : Option Window)
        → Safe s.handlers
        → Result req s.handlers.protos (reply_with req pairs tasks m (windowed s o))
    unfolding reply_with reply_to
    window-Result req pairs tasks m s none h = tt
    window-Result req pairs tasks m s (some w) h =
        send-Result req pairs tasks m
          (record s {
            handlers = record s.handlers { maxcmdsn = w.maxcmdsn };
            expcmdsn = w.expcmdsn;
            pool_state = w.pool_state;
          })
          h

    begin-Result :
        (req : LoginReq) (protos : List ℕ) (pairs : List (Key × Text)) (r : First)
        → Safe r.2.handlers
        → r.2.handlers.protos ≡ protos
        → Result req protos
            (begin cast64 cast32 config opens garbage merge fuel limitter poolnum sizes req pairs r)
    unfolding begin advance_window reply_with
    begin-Result req protos pairs (false, tasks, s, m) h e = refused req protos s m h
    begin-Result req protos pairs (true, tasks, s, m) h e =
        subst
          (λ p. Result req p (
            reply_with req pairs tasks m (
              advance_window cast64 cast32 config opens garbage merge fuel limitter poolnum sizes
                req s)))
          e
          (if_cases (λ o. Result req s.handlers.protos (reply_with req pairs tasks m o))
            req.immediate_cmd _ _ (λ i. send-Result req pairs tasks m s h)
            (λ i. window-Result req pairs tasks m s _ h))

    parsed-Result :
        (fd : ℕ) (req : LoginReq) (s : LoginSession) (m : Manager)
        (o : Option (Bool × List (Key × Text)))
        → Safe s.handlers
        → Result req s.handlers.protos (elim o [
          | none ↦ none
          | some (false, l) ↦ some (false, s, m)
          | some (true, pairs) ↦
              begin cast64 cast32 config opens garbage merge fuel limitter poolnum sizes req pairs
                (first_request fd req pairs s m)
        ])
    parsed-Result fd req s m none h = tt
    parsed-Result fd req s m (some (false, l)) h = refused req s.handlers.protos s m h
    parsed-Result fd req s m (some (true, pairs)) h =
        begin-Result req s.handlers.protos pairs (first_request fd req pairs s m)
          (first_request-Safe fd req pairs s m h) (first_request-protos fd req pairs s m)

    -- A login request of a session that has handlers for opcodes of its type only: where it comes to
    -- an end, the session still has just such handlers. If it is accepted, its stages are from security
    -- negotiation to the negotiation of operational parameters, with the handlers there were before, or
    -- from one of the two to the full feature phase, with every handler of the type, Discovery or Normal.
    pub handle_login-Result :
        (fd : ℕ) (req : LoginReq) (s : LoginSession) (m : Manager)
        → Safe s.handlers
        → Result req s.handlers.protos (
            handle_login cast64 cast32 config opens garbage merge fuel limitter poolnum sizes fd req
              s m)
    unfolding handle_login
    handle_login-Result fd req s m h =
        if_cases (Result req s.handlers.protos) (login_valid req) _ _
          (λ v.
            parsed-Result fd req s m
              (parse_pairs cast64 config req.dlength req.dlength req.data_segment) h)
          (λ v. refused req s.handlers.protos s m h)

-- The sessions that login requests lead to, each with a pool and caches of its own time.
module _ (cast64 cast32 : Text → Option ℕ) (config : Config) (opens : Text → Bool) (garbage : ℕ)
    (merge : List LoginTask → List LoginTask → List LoginTask) (fuel : ℕ)
    (limitter : LinearLimitter) where
  pub data Logins (start : LoginSession) : LoginSession → Type 0 where
    logins_none : Logins start start
    logins_more :
        (s t : LoginSession) (poolnum : ℕ) (sizes : List ℕ) (fd : ℕ) (req : LoginReq)
        (m n : Manager) (ok : Bool)
        → Logins start s
        → handle_login cast64 cast32 config opens garbage merge fuel limitter poolnum sizes fd req s
            m
          ≡ some (ok, t, n)
        → Logins start t

  -- A session that starts in login with the handler of login requests alone never has, after any
  -- sequence of login requests, accepted or refused, a handler for an opcode that its type does not
  -- allow: none for SCSI commands or data unless it is a normal session, none for TEXT unless it is a
  -- discovery session.
  pub Logins-Safe :
      (start s : LoginSession)
      → start.handlers.type ≡ session_login
      → start.handlers.protos ≡ 0x03 ∷ []
      → Logins start s
      → Safe s.handlers
  Logins-Safe start _ t p logins_none = rw (t, p) (refl, tt)
  Logins-Safe start _ t p (logins_more r s poolnum sizes fd req m n ok l e) =
      (subst (Result req r.handlers.protos) e (
        handle_login-Result merge cast64 cast32 config opens garbage fuel limitter poolnum sizes fd
          req r m (Logins-Safe start r t p l))).0
