-- ===== src/Control/Numbering.antt =====
-- src/iscsi/logout.cpp, nopout.cpp, nopin.cpp and taskmng.cpp: the numbers of the replies on each
-- connection, over every sequence of requests.
use sstoraged.Common.{
  ℕ, zero, suc, ◌+◌, ◌≤◌, ◌≡◌, ◌≢◌, ◌==◌, ◌&&◌, refl, sym, ap, ◌∙◌, subst, Bool, true, false,
  if_cases, if◌then◌else◌, Bool-cases, ==_iff, inl, inr, Option, none, some, List, [], ◌∷◌, ◌++◌,
  arith,
}
use mathlib.Core.Bool.{true≢false}
use sstoraged.Counter.{next_sn}
use sstoraged.Limitter.{LinearLimitter, Window}
use sstoraged.Control.{
  ControlReq, ControlTask, ReplyHead, send_logout, send_nop_in, send_task_mng, end_session,
  end_reactor, end_connection, Peer, head_of, logout_tasks, logout_valid, nop_out_valid,
  nop_in_valid, task_mng_valid, times, reply_logout, counted, handle_control, handle_logout,
  handle_nop_in, handle_nop_out, handle_task_mng, reply_nop, reply_task_mng, in_window, count_cmd,
}

-- How many tasks of a queue are replies on the socket `c` with the StatSN `n`.
abbrev pub is_numbered : ℕ → ℕ → ReplyHead → ℕ
is_numbered c n h = if h.fd == c && h.statsn == n then 1 else 0

abbrev pub is_reply : ℕ → ℕ → ControlTask → ℕ
is_reply c n (send_logout h r w t) = is_numbered c n h
is_reply c n (send_nop_in h t) = is_numbered c n h
is_reply c n (send_task_mng h r l) = is_numbered c n h
is_reply c n end_session = 0
is_reply c n end_reactor = 0
is_reply c n (end_connection fd) = 0

abbrev pub weigh : (ControlTask → ℕ) → List ControlTask → ℕ
weigh f [] = 0
weigh f (t ∷ l) = f t + weigh f l

-- A merge moves each task of both lists to the result, whatever the order.
abbrev pub Merges : (List ControlTask → List ControlTask → List ControlTask) → Type 0
Merges merge =
    (f : ControlTask → ℕ) (l m : List ControlTask) → weigh f (merge l m) ≡ weigh f l + weigh f m

-- `k` numbers of a counter, and what it holds behind them.
abbrev pub numbers : ℕ → ℕ → List ℕ
numbers zero n = []
numbers (suc k) n = n ∷ numbers k (next_sn n).1

abbrev pub after : ℕ → ℕ → ℕ
after zero n = n
after (suc k) n = after k (next_sn n).1

abbrev pub occurs : ℕ → List ℕ → ℕ
occurs n [] = 0
occurs n (x ∷ l) = (if x == n then 1 else 0) + occurs n l

weigh-append :
    (f : ControlTask → ℕ) (l m : List ControlTask) → weigh f (l ++ m) ≡ weigh f l + weigh f m
weigh-append f [] m = omega arith
weigh-append f (t ∷ l) m = omega (arith, weigh-append f l m)

occurs-add :
    (i k l n : ℕ)
    → occurs i (numbers (k + l) n) ≡ occurs i (numbers k n) + occurs i (numbers l (after k n))
occurs-add i zero l n = let e : 0 + l ≡ l = omega arith in rw e (omega arith)
occurs-add i (suc k) l n =
    let e : suc k + l ≡ suc (k + l) = omega arith in
    rw e (omega (arith, occurs-add i k l (next_sn n).1))

after-add : (k l n : ℕ) → after (k + l) n ≡ after l (after k n)
after-add zero l n = let e : 0 + l ≡ l = omega arith in ap (λ x. after x n) e
after-add (suc k) l n =
    let e : suc k + l ≡ suc (k + l) = omega arith in rw e (after-add k l (next_sn n).1)

-- From one session to another, `k` replies are queued for the socket `c`: one with each of the `k`
-- numbers from its StatSN on, which counts them.
abbrev pub Numbered : ℕ → ℕ → Peer → Peer → Type 0
Numbered c k p q =
    ((n : ℕ)
      → weigh (is_reply c n) q.sendtask
        ≡ weigh (is_reply c n) p.sendtask + occurs n (numbers k (p.statsn c)))
    × (q.statsn c ≡ after k (p.statsn c))

Numbered-trans :
    (c k l : ℕ) (p q r : Peer) → Numbered c k p q → Numbered c l q r → Numbered c (k + l) p r
Numbered-trans c k l p q r (a, b) (x, d) = (
  λ n.
      let next = ap (λ (s : ℕ). occurs n (numbers l s)) b in
      omega (arith, a n, x n, next, occurs-add n k l (p.statsn c)),
  d ∙ (ap (after l) b ∙ sym (after-add k l (p.statsn c))),
)

same-Numbered : (c : ℕ) (p : Peer) → Numbered c 0 p p
same-Numbered c p = (λ n. omega arith, refl)

-- At most one reply, and none for another socket than that of the request.
abbrev pub One : ℕ → ℕ → Peer → Peer → Type 0
One fd c p q = (k : ℕ) × (k ≤ 1) × (c ≢ fd → k ≡ 0) × Numbered c k p q

-- A step: a request that is refused changes nothing, one that is accepted queues one reply or none.
abbrev pub StepNumbered : ℕ → ℕ → Peer → Option (Bool × Peer) → Type 0
StepNumbered fd c p none = Unit
StepNumbered fd c p (some (ok, q)) = One fd c p q × (ok ≡ false → q ≡ p)

refused-Numbered : (fd c : ℕ) (p : Peer) (ok : Bool) → StepNumbered fd c p (some (ok, p))
refused-Numbered fd c p ok = ((0, omega arith, λ d. refl, same-Numbered c p), λ e. refl)

-- A queue that has one reply more, beside tasks that are no replies.
queued-Numbered :
    (fd c : ℕ) (req : ControlReq) (p : Peer) (t : ControlTask) (l tasks : List ControlTask)
    → ((n : ℕ) → is_reply c n t ≡ is_numbered c n (head_of fd req p))
    → ((n : ℕ) → weigh (is_reply c n) tasks ≡ 0)
    → ((f : ControlTask → ℕ) → weigh f l ≡ weigh f p.sendtask + weigh f (t ∷ tasks))
    → One fd c p (record (counted fd p) { sendtask = l })
queued-Numbered fd c req p t l tasks e silent all = elim (Bool-cases (c == fd)) [
  | inl here ↦
      let same : c ≡ fd = (==_iff c fd).0 here in
      let flip : (fd == c) ≡ true = ground (arith, here) in
      let number = ap p.statsn same in
      (
        1,
        omega arith,
        λ d. absurd (d same),
        (
          λ n.
              let hit : is_numbered c n (head_of fd req p) ≡ (if p.statsn fd == n then 1 else 0) =
                rw flip refl in
              rw number (omega (arith, all (is_reply c n), e n, silent n, hit)),
          rw (here, number) refl,
        ),
      )
  | inr other ↦
      let flip : (fd == c) ≡ false = ground (arith, other) in
      (
        0,
        omega arith,
        λ d. refl,
        (
          λ n.
              let miss : is_numbered c n (head_of fd req p) ≡ 0 = rw flip refl in
              omega (arith, all (is_reply c n), e n, silent n, miss),
          rw other refl,
        ),
      )
]

logout_tasks-silent :
    (c n fd : ℕ) (req : ControlReq) (p : Peer) → weigh (is_reply c n) (logout_tasks fd req p).1 ≡ 0
unfolding logout_tasks
logout_tasks-silent c n fd req p = ground arith

module _ (merge : List ControlTask → List ControlTask → List ControlTask)
    (merges : Merges merge) where
  reply_logout-Numbered :
      (fd c : ℕ) (req : ControlReq) (p : Peer) (r : ℕ × List ControlTask) (o : Option (ℕ × ℕ))
      → ((n : ℕ) → weigh (is_reply c n) r.1 ≡ 0)
      → StepNumbered fd c p (reply_logout merge fd req p r o)
  reply_logout-Numbered fd c req p (response, tasks) none e = tt
  reply_logout-Numbered fd c req p (response, tasks) (some (wait, retain)) e =
      let reply = send_logout (head_of fd req p) response wait retain in
      (
        queued-Numbered fd c req p reply (merge p.sendtask (reply ∷ tasks)) tasks (λ n. refl) e
            (λ f. merges f p.sendtask (reply ∷ tasks)),
        λ f. absurd (true≢false f),
      )

  handle_logout-Numbered :
      (fd c : ℕ) (req : ControlReq) (p : Peer) → StepNumbered fd c p (handle_logout merge fd req p)
  unfolding handle_logout
  handle_logout-Numbered fd c req p =
      if_cases (StepNumbered fd c p) (logout_valid req) _ _
        (λ v.
          reply_logout-Numbered fd c req p (logout_tasks fd req p) (times p.attrs)
            (λ n. logout_tasks-silent c n fd req p))
        (λ v. refused-Numbered fd c p false)

  module _ (fuel : ℕ) (limitter : LinearLimitter) (poolnum : ℕ) (sizes : List ℕ) where
    -- What a reply behind the command number does, where the window moves neither StatSN nor the queue.
    counted-Numbered :
        (fd c : ℕ) (reply : Option Peer → Option (Bool × Peer)) (req : ControlReq) (p : Peer)
        → reply none ≡ none
        → ((q : Peer) → (r : Peer) × (reply (some q) ≡ some (true, r)) × One fd c q r)
        → StepNumbered fd c p (reply (count_cmd fuel limitter poolnum sizes req p))
    counted-Numbered fd c reply req p e h =
        if_cases (λ o. StepNumbered fd c p (reply o)) req.immediate_cmd _ _
          (λ i. answered p (h p) (λ k r n. n)) (λ i. windowed _)
      where
        answered :
            (q : Peer)
            → (r : Peer) × (reply (some q) ≡ some (true, r)) × One fd c q r
            → ((k : ℕ) (r : Peer) → Numbered c k q r → Numbered c k p r)
            → StepNumbered fd c p (reply (some q))
        answered q (r, f, (k, most, other, n)) back =
            rw f ((k, most, other, back k r n), λ g. absurd (true≢false g))

        windowed :
            (o : Option Window)
            → StepNumbered fd c p (reply (in_window fuel limitter poolnum sizes p o))
        windowed none = rw e tt
        windowed (some w) = answered _ (h _) (λ k r n. n)

    appended-One :
        (fd c : ℕ) (req : ControlReq) (q : Peer) (t : ControlTask)
        → ((n : ℕ) → is_reply c n t ≡ is_numbered c n (head_of fd req q))
        → One fd c q (record (counted fd q) { sendtask = q.sendtask ++ t ∷ [] })
    appended-One fd c req q t e =
        queued-Numbered fd c req q t (q.sendtask ++ t ∷ []) [] e (λ n. refl)
          (λ f. weigh-append f q.sendtask (t ∷ []))

    handle_nop_out-Numbered :
        (fd c : ℕ) (req : ControlReq) (p : Peer)
        → StepNumbered fd c p (handle_nop_out fuel limitter poolnum sizes fd req p)
    unfolding handle_nop_out
    handle_nop_out-Numbered fd c req p =
        if_cases (StepNumbered fd c p) (nop_out_valid req) _ _
          (λ v.
            counted-Numbered fd c (reply_nop fuel limitter poolnum sizes fd req) req p refl
              (λ q. (_, refl, appended-One fd c req q _ (λ n. refl))))
          (λ v. refused-Numbered fd c p false)

    handle_task_mng-Numbered :
        (fd c : ℕ) (req : ControlReq) (p : Peer)
        → StepNumbered fd c p (handle_task_mng fuel limitter poolnum sizes fd req p)
    unfolding handle_task_mng
    handle_task_mng-Numbered fd c req p =
        if_cases (StepNumbered fd c p) (task_mng_valid req) _ _
          (λ v.
            counted-Numbered fd c (reply_task_mng fuel limitter poolnum sizes fd req) req p refl
              (λ q. (_, refl, appended-One fd c req q _ (λ n. refl))))
          (λ v. refused-Numbered fd c p false)

    -- Where a merge of queues moves each task of both to the result, in whatever order: a logout,
    -- NOP-Out, NOP-In or task management request on the socket `fd` that is refused changes nothing. One
    -- that is accepted queues one reply at most, for `fd` alone, with the StatSN of that connection,
    -- which the reply then counts; the StatSN of every other connection and the replies on it stay.
    pub handle_control-Numbered :
        (fd c : ℕ) (req : ControlReq) (p : Peer)
        → StepNumbered fd c p (handle_control merge fuel limitter poolnum sizes fd req p)
    unfolding handle_control handle_nop_in
    handle_control-Numbered fd c req p =
        let P = StepNumbered fd c p in
        if_cases P (req.op_code == 0x00) _ _ (λ e. handle_nop_out-Numbered fd c req p)
          (λ e.
            if_cases P (req.op_code == 0x20) _ _ (λ f. refused-Numbered fd c p (nop_in_valid req))
              (λ f.
                if_cases P (req.op_code == 0x02) _ _ (λ g. handle_task_mng-Numbered fd c req p)
                  (λ g.
                    if_cases P (req.op_code == 0x06) _ _ (λ h. handle_logout-Numbered fd c req p)
                      (λ h. tt))))

  -- The sessions that requests lead to, accepted or refused, each on a socket and with a pool and caches
  -- of its time.
  module _ (fuel : ℕ) (limitter : LinearLimitter) where
    pub data Controls (start : Peer) : Peer → Type 0 where
      controls_none : Controls start start
      controls_more :
          (q r : Peer) (poolnum : ℕ) (sizes : List ℕ) (fd : ℕ) (req : ControlReq) (ok : Bool)
          → Controls start q
          → handle_control merge fuel limitter poolnum sizes fd req q ≡ some (ok, r)
          → Controls start r

    -- Where a merge of queues moves each task of both to the result, in whatever order: over any sequence
    -- of logout, NOP-Out, NOP-In and task management requests, on any sockets, accepted or refused, the
    -- replies that are queued for a socket have the numbers from the StatSN of its connection at the
    -- start on, one reply for each number, without a gap or a repetition, and the StatSN that is left is
    -- the next one. In which order the replies stand in the queue is not said.
    pub Controls-Numbered :
        (start p : Peer) → Controls start p → (c : ℕ) → (k : ℕ) × Numbered c k start p
    Controls-Numbered start _ controls_none c = (0, same-Numbered c start)
    Controls-Numbered start _ (controls_more q r poolnum sizes fd req ok s e) c =
        let (k, n) = Controls-Numbered start q s c in
        let ((l, most, other, m), refused) =
          subst (StepNumbered fd c q) e
            (handle_control-Numbered fuel limitter poolnum sizes fd c req q) in
        (k + l, Numbered-trans c k l start q r n m)
