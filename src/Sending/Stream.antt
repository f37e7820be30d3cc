-- ===== src/Sending/Stream.antt =====
-- SendTask::run puts the bytes of its buffers on the socket in order.
use sstoraged.Common.{
  ℕ, zero, suc, ◌+◌, ◌-◌, ◌^◌, ◌≤◌, ◌<◌, ◌≡◌, refl, sym, ◌∙◌, ap, min, inl, inr, true, false, ltb,
  leb, ◌==◌, Bool-cases, if_cases, List, [], ◌∷◌, ◌++◌, length, length-append, take, drop, All,
  add64, sub64, arith, ◌⊎◌, drop-append_past, drop-append_within, take-append-drop, take_all,
  length-drop,
}
use mathlib.Core.List.{append_assoc}
use mathlib.Core.Bool.{true≢false}
use sstoraged.Buffers.{CommonBuf, get_remain}
use sstoraged.Buffers.Space.{Sound, unread}
use sstoraged.Volume.Layout.{Place, run, run-length, run_ap, drop-run}
use sstoraged.Sending.{
  SendTask, step_buffers, step_task, send_slots, slot_bytes, Sent, after, run_send,
}

-- The bytes that a task still has to send, and a task that counts them right.
abbrev pub pending : List CommonBuf → List Place
pending [] = []
pending (b ∷ l) = run b.name b.offset (b.tail - b.offset) ++ pending l

pub record Counts (t : SendTask) : Type 0 where
  pub sound : All Sound t.cbufs
  pub counted : t.total_remain ≡ unread t.cbufs
  pub small : unread t.cbufs < 2 ^ 63

pending-length : (l : List CommonBuf) → length (pending l) ≡ unread l
pending-length [] = refl
pending-length (b ∷ l) = omega (
  arith,
  length-append {0} (run b.name b.offset (b.tail - b.offset)) (pending l),
  run-length b.name b.offset (b.tail - b.offset),
  pending-length l,
)

get_remain_lem : (b : CommonBuf) → Sound b → get_remain b ≡ b.tail - b.offset
get_remain_lem b s = omega (arith, s)

-- The slots show what is pending.
slots-pending :
    (l : List CommonBuf)
    → All Sound l
    → unread l < 2 ^ 63
    → (slot_bytes (send_slots l).0 ≡ pending l) × ((send_slots l).1 ≡ unread l)
unfolding send_slots slot_bytes
slots-pending [] s h = (refl, refl)
slots-pending (b ∷ l) s h =
    let (shown, sum) = slots-pending l s.1 (omega (arith, h)) in
    let here = get_remain_lem b s.0 in (rw (here, shown), omega (arith, here, sum, h))

-- A step over bytes that are there takes them off the front of what is pending.
step_buffers-pending :
    (tmp : ℕ) (l : List CommonBuf) (total : ℕ)
    → All Sound l
    → total ≡ unread l
    → total < 2 ^ 63
    → tmp ≤ unread l
    → Counts (step_buffers tmp l total)
      × (pending (step_buffers tmp l total).cbufs ≡ drop tmp (pending l))
unfolding step_buffers
step_buffers-pending zero [] total s c h f =
    (record { sound = s; counted = c; small = omega (arith, c, h) }, refl)
step_buffers-pending (suc tmp) [] total s c h f = absurd (omega (arith, f))
step_buffers-pending tmp (b ∷ l) total s c h f =
    let here = get_remain_lem b s.0 in
    let bytes = run b.name b.offset (b.tail - b.offset) in
    let whole = run-length b.name b.offset (b.tail - b.offset) in
    elim (Bool-cases (tmp == 0)) [
      | inl none_left ↦
          let z : 0 ≡ tmp = ground (arith, none_left) in
          rw none_left (
            record { sound = s; counted = c; small = omega (arith, c, h) },
            ap (λ (m : ℕ). drop m (bytes ++ pending l)) z,
          )
      | inr some_left ↦ elim (Bool-cases (leb (b.tail - b.offset) tmp)) [
        | inl past ↦
            let left : sub64 tmp (b.tail - b.offset) ≡ tmp - (b.tail - b.offset) =
              ground (arith, past, f, h, c) in
            let lacks : sub64 total (b.tail - b.offset) ≡ total - (b.tail - b.offset) =
              ground (arith, h, c) in
            let rest =
              step_buffers-pending (tmp - (b.tail - b.offset)) l (total - (b.tail - b.offset)) s.1
                (ground (arith, c)) (omega (arith, h)) (ground (arith, past, f)) in
            rw (some_left, here, past, left, lacks)
              (
                rest.0,
                rest.1
                    ∙ sym (
                        drop-append_past tmp (tmp - (b.tail - b.offset)) bytes (pending l)
                          (ground (arith, past, whole))),
              )
        | inr within ↦
            let unfits : ltb (b.tail - b.offset) tmp ≡ false = ground (arith, within) in
            let moved : add64 b.offset tmp ≡ b.offset + tmp = ground (arith, within, s.0) in
            let short : tmp < b.tail - b.offset = ground (arith, within) in
            let lacks : sub64 total tmp ≡ total - tmp = ground (arith, h, c, short) in
            rw (some_left, here, within, lacks, unfits, moved)
              (
                record {
                  sound = ((omega (arith, short), (s.0.1.0, s.0.1.1)), s.1);
                  counted = omega (arith, c, short);
                  small = omega (arith, c, h, short);
                },
                ap (λ (q : List Place). q ++ pending l)
                      (run_ap b.name (b.offset + tmp) (b.offset + tmp) (b.tail - (b.offset + tmp))
                          (b.tail - b.offset - tmp) refl (omega arith)
                        ∙ sym (
                            drop-run b.name b.offset (b.tail - b.offset) tmp
                              (omega (arith, short))))
                    ∙ sym (drop-append_within tmp bytes (pending l) (omega (arith, short, whole))),
              )
      ]
    ]

-- What a run leaves: either all is on the socket, or what is on it and what the task still has to send
-- are together what it had.
abbrev pub Streamed : SendTask → Sent → Type 0
Streamed t r =
    ((r.ok ≡ true) × (r.stream ≡ pending t.cbufs))
    ⊎ ((r.ok ≡ false) × (Counts r.task × (r.stream ++ pending r.task.cbufs ≡ pending t.cbufs)))

after-Streamed :
    (l : List Place) (t t' : SendTask) (r : Sent)
    → l ++ pending t'.cbufs ≡ pending t.cbufs
    → Streamed t' r
    → Streamed t (after l r)
after-Streamed l t t' r e (inl (k, all)) = inl (k, ap (λ (q : List Place). l ++ q) all ∙ e)
after-Streamed l t t' r e (inr (k, (c, part))) = inr (
  k,
  (c, append_assoc l r.stream (pending r.task.cbufs) ∙ (ap (λ (q : List Place). l ++ q) part ∙ e)),
)

step_list-pending :
    (size : ℕ) (l : List CommonBuf) (total : ℕ)
    → Counts (record { cbufs = l; total_remain = total })
    → size ≤ unread l
    → Counts (step_task size (record { cbufs = l; total_remain = total })).1
      × (pending (step_task size (record { cbufs = l; total_remain = total })).1.cbufs
          ≡ drop size (pending l))
step_list-pending zero [] total c h = (c, refl)
step_list-pending (suc size) [] total c h = absurd (omega (arith, h))
step_list-pending size (b ∷ l) total c h =
    step_buffers-pending size (b ∷ l) total c.sound c.counted (omega (arith, c.small, c.counted)) h

-- SendTask::run, however many bytes the socket takes in each call, on a task that counts its bytes:
-- where it is done, exactly the bytes of its buffers are on the socket, in order. Else the connection
-- waits, the task counts its bytes again, and what is on the socket is followed by just what the task
-- has left, so that a later run goes on where this one stopped.
pub run_send-Streamed : (ns : List ℕ) (t : SendTask) → Counts t → Streamed t (run_send ns t)
unfolding run_send
run_send-Streamed [] t c = inr (refl, (c, refl))
run_send-Streamed (n ∷ ns) t c =
    let (shown, sum) = slots-pending t.cbufs c.sound c.small in
    let vec = send_slots t.cbufs in
    let size = min n vec.1 in
    let fits : size ≤ unread t.cbufs = omega (arith, sum) in
    let (counts, dropped) = step_list-pending size t.cbufs t.total_remain c fits in
    let nothing : Streamed t (record { ok = false; stream = []; task = t }) =
      inr (refl, (c, refl)) in
    let sent = take size (slot_bytes vec.0) in
    let is_front : sent ≡ take size (pending t.cbufs) = ap (take size) shown in
    if_cases (Streamed t) (length t.cbufs == 0) _ _ (λ _. nothing)
      (λ _.
        if_cases (Streamed t) (size == 0) _ _ (λ _. nothing)
          (λ _.
            if_cases (Streamed t) (vec.1 == size) _ _
              (λ all. inl (
                refl,
                is_front
                    ∙ take_all size (pending t.cbufs)
                        (ground (arith, all, sum, pending-length t.cbufs)),
              ))
              (λ _.
                after-Streamed sent t (step_task size t).1 (run_send ns (step_task size t).1)
                  (ap (λ (q : List Place). q ++ pending (step_task size t).1.cbufs) is_front
                    ∙ (ap (λ (q : List Place). take size (pending t.cbufs) ++ q) dropped
                        ∙ take-append-drop size (pending t.cbufs)))
                  (run_send-Streamed ns (step_task size t).1 counts))))

nonempty : (l : List CommonBuf) → 0 < unread l → (length l == 0) ≡ false
nonempty [] h = absurd (omega (arith, h))
nonempty (b ∷ l) h = ground arith

run_send_ok :
    (ns : List ℕ) (t : SendTask)
    → Counts t
    → 0 < unread t.cbufs
    → unread t.cbufs ≤ length ns
    → All (λ n. 0 < n) ns
    → (run_send ns t).ok ≡ true
unfolding run_send
run_send_ok [] t c p h a = absurd (omega (arith, p, h))
run_send_ok (n ∷ ns) t c p h a =
    let (shown, sum) = slots-pending t.cbufs c.sound c.small in
    let vec = send_slots t.cbufs in
    let size = min n vec.1 in
    let (counts, dropped) = step_list-pending size t.cbufs t.total_remain c (omega (arith, sum)) in
    let some_size : (size == 0) ≡ false = ground (arith, sum, p, a.0) in
    let some_bufs : (length t.cbufs == 0) ≡ false = nonempty t.cbufs p in
    elim (Bool-cases (vec.1 == size)) [
      | inl all ↦ rw (some_bufs, some_size, all)
      | inr part ↦
          let left : unread (step_task size t).1.cbufs ≡ unread t.cbufs - size = omega (
            arith,
            pending-length (step_task size t).1.cbufs,
            ap length dropped,
            length-drop {0} size (pending t.cbufs),
            pending-length t.cbufs,
          ) in
          rw (some_bufs, some_size, part)
            (run_send_ok ns (step_task size t).1 counts (ground (arith, left, part, sum))
              (ground (arith, left, some_size, h)) a.1)
    ]

-- With room for a byte at least in each call, and as many calls as bytes, a task that has bytes to send
-- is done, and exactly these are on the socket.
pub run_send_done :
    (ns : List ℕ) (t : SendTask)
    → Counts t
    → 0 < unread t.cbufs
    → unread t.cbufs ≤ length ns
    → All (λ n. 0 < n) ns
    → ((run_send ns t).ok ≡ true) × ((run_send ns t).stream ≡ pending t.cbufs)
run_send_done ns t c p h a =
    let done = run_send_ok ns t c p h a in
    elim (run_send-Streamed ns t c) [
      | inl (k, all) ↦ (done, all)
      | inr (k, part) ↦ absurd (true≢false (sym done ∙ k))
    ]
