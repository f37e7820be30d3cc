-- ===== src/Transfer/Complete.antt =====
-- A sequence of Data-Out PDUs that brings what is missing finishes the transfer.
use sstoraged.Common.{
  ℕ, ◌-◌, ◌^◌, ◌≤◌, ◌<◌, ◌≡◌, refl, ap, subst, ◌∙◌, Bool, true, ◌==◌, ==_iff, some, List, [], ◌∷◌,
  ◌++◌, All, length, arith, Bool-cases, inl, inr,
}
use mathlib.Core.List.{append_assoc}
use sstoraged.Cache.{LbaIndex}
use sstoraged.Session.{Session, DataOutInfo, Token, Task, recv_get}
use sstoraged.Transfer.{DataOutReq, handle_data_out, finish_data_out}
use sstoraged.Transfer.Sequence.{Part, Parts, run, Completed, step}
use sstoraged.Transfer.Finish.{Onward, finish-Completed, finish-Onward}

-- The end of a transfer that has gone on for one PDU.
join-Completed :
    (itt total n : ℕ) (s s' s'' : Session) (ok ok' : Bool)
    → Onward itt total n s ok s'
    → Completed itt total s' ok' s''
    → Completed itt total s ok' s''
join-Completed itt total n s s' s'' ok ok' o c = record {
  succeeds = c.succeeds;
  asked = o.asked ++ c.asked;
  response = c.response;
  queued =
      c.queued
      ∙ rw (
        o.queued,
        append_assoc s.sendtask o.asked (c.asked ++ (c.response ∷ [])),
        append_assoc o.asked c.asked (c.response ∷ []),
      );
  asks = both _ o.asked c.asked o.asks (rw o.mrds at c.asks);
  answers = rw o.statsn at c.answers;
  closed = c.closed;
  counted = c.counted ∙ rw o.statsn;
}
  where
    both : (P : Task → Type 0) (a b : List Task) → All P a → All P b → All P (a ++ b)
    both P [] b x y = y
    both P (t ∷ a) b x y = (x.0, both P a b x.1 y)

run-cons :
    (ix : LbaIndex) (r : DataOutReq) (t : Token) (l : List (DataOutReq × Token)) (s : Session)
    → (handle_data_out ix r t s).0 ≡ true
    → run ix ((r, t) ∷ l) s ≡ run ix l (handle_data_out ix r t s).1
run-cons ix r t l s e = rw e

abbrev Ends : LbaIndex → List (DataOutReq × Token) → Type 0
Ends ix l =
    (itt : ℕ) (s : Session) (d : DataOutInfo)
    → recv_get itt s.recvinfo ≡ some d
    → 0 < d.remain
    → d.remain ≤ d.total
    → d.total < 2 ^ 32
    → Parts itt (length s.wcaches) d.remain l
    → Completed itt d.total s (run ix l s).0 (run ix l s).1

module _ (ix : LbaIndex) (r : DataOutReq) (t : Token) (s : Session) (d : DataOutInfo)
    (g : recv_get r.itt s.recvinfo ≡ some d) (b : d.remain ≤ d.total) (w : d.total < 2 ^ 32)
    (p : Part r.itt (length s.wcaches) d.remain r) where
  handled_last :
      d.remain - r.dlength ≡ 0
      → Completed r.itt d.total s (run ix ((r, t) ∷ []) s).0 (run ix ((r, t) ∷ []) s).1
  handled_last z =
      let (s', k, e) = step ix r t s d d.remain p g in
      let c = finish-Completed r s s' d k p g b w z in
      let ok : (handle_data_out ix r t s).0 ≡ true = ap (λ o. o.0) e ∙ c.succeeds in
      rw (run-cons ix r t [] s ok, e)
        (record {
          succeeds = refl;
          asked = c.asked;
          response = c.response;
          queued = c.queued;
          asks = c.asks;
          answers = c.answers;
          closed = c.closed;
          counted = c.counted;
        })

  handled_more :
      (l : List (DataOutReq × Token))
      → Ends ix l
      → 0 < d.remain - r.dlength
      → Parts r.itt (length s.wcaches) (d.remain - r.dlength) l
      → Completed r.itt d.total s (run ix ((r, t) ∷ l) s).0 (run ix ((r, t) ∷ l) s).1
  handled_more l ih z h =
      let (s', k, e) = step ix r t s d d.remain p g in
      let o = finish-Onward r s s' d k p g b w z in
      let ok : (handle_data_out ix r t s).0 ≡ true = ap (λ o. o.0) e ∙ o.succeeds in
      let rest =
        ih r.itt (finish_data_out r d s').1 o.info o.open_task (rw o.left z)
          (rw (o.left, o.total_same) (omega arith)) (rw o.total_same w) (rw (o.left, o.caches) h) in
      rw (run-cons ix r t l s ok, e)
        (join-Completed r.itt d.total (d.remain - r.dlength) s (finish_data_out r d s').1 _ _ _ o
          (rw o.total_same at rest))

-- A receive task with bytes left, within its total, is brought to its end by Data-Out PDUs that
-- carry those bytes, the last of them final: every PDU is accepted, the responses to them are R2Ts
-- that each ask for no more than MaxRecvDataSegmentLength and than what is left of the total, and
-- at the end one SCSI response with the StatSN of the connection, which advances by one; the receive
-- task is released.
pub run-Completed :
    (ix : LbaIndex) (l : List (DataOutReq × Token)) (itt : ℕ) (s : Session) (d : DataOutInfo)
    → recv_get itt s.recvinfo ≡ some d
    → 0 < d.remain
    → d.remain ≤ d.total
    → d.total < 2 ^ 32
    → Parts itt (length s.wcaches) d.remain l
    → Completed itt d.total s (run ix l s).0 (run ix l s).1
run-Completed ix [] itt s d g p b w h = absurd (omega (arith, h))
run-Completed ix ((r, t) ∷ l) itt s d g p b w h =
    subst
      (λ i.
        recv_get i s.recvinfo ≡ some d
        → Parts i (length s.wcaches) d.remain ((r, t) ∷ l)
        → Completed i d.total s (run ix ((r, t) ∷ l) s).0 (run ix ((r, t) ∷ l) s).1)
      h.0.tag (go (run-Completed ix l)) g h
  where
    last :
        (m : List (DataOutReq × Token))
        → d.remain - r.dlength ≡ 0
        → recv_get r.itt s.recvinfo ≡ some d
        → Parts r.itt (length s.wcaches) d.remain ((r, t) ∷ m)
        → Completed r.itt d.total s (run ix ((r, t) ∷ m) s).0 (run ix ((r, t) ∷ m) s).1
    last [] z g' h' = handled_last ix r t s d g' b w h'.0 z
    last ((q, u) ∷ m) z g' h' = absurd (omega (arith, h'.1.0.some_bytes, h'.1.0.enough))

    go :
        Ends ix l
        → recv_get r.itt s.recvinfo ≡ some d
        → Parts r.itt (length s.wcaches) d.remain ((r, t) ∷ l)
        → Completed r.itt d.total s (run ix ((r, t) ∷ l) s).0 (run ix ((r, t) ∷ l) s).1
    go ih g' h' = elim (Bool-cases (d.remain - r.dlength == 0)) [
      | inl z ↦ last l ((==_iff (d.remain - r.dlength) 0).0 z) g' h'
      | inr z ↦ handled_more ix r t s d g' b w h'.0 l ih (ground arith) h'.1
    ]
