-- ===== src/Transfer/Sequence.antt =====
-- A sequence of Data-Out PDUs for one WRITE, from the open receive task to the response.
use sstoraged.Common.{
  ℕ, zero, suc, ◌+◌, ◌-◌, ◌≤◌, ◌<◌, ◌≡◌, refl, ap, Bool, true, false, leb, ◌==◌, if◌then◌else◌,
  none, some, List, [], ◌∷◌, ◌++◌, All, length, arith, Bool-cases, Option-cases, inl, inr, sub32,
  add64,
}
use sstoraged.Cache.{WriteSegment, WriteCache, LbaIndex}
use sstoraged.Counter.{next_sn}
use sstoraged.Session.{
  Session, DataOutInfo, Token, Task, pdu_r2t, pdu_scsi_rsp, task_send, store, store_at, recv_get,
  recv_set, recv_pop,
}
use sstoraged.Transfer.{DataOutReq, handle_data_out, finish_data_out, front_data_segment}
use sstoraged.Read.{offset2lba}

module _ (itt : ℕ) where
  pub get-set :
      (d e : DataOutInfo) (l : List (ℕ × DataOutInfo))
      → recv_get itt l ≡ some d
      → recv_get itt (recv_set itt e l) ≡ some e
  unfolding recv_get recv_set
  get-set d e [] h = cc
  get-set d e ((k, x) ∷ l) h = elim (Bool-cases (k == itt)) [
    | inl p ↦ rw (p, p)
    | inr p ↦ rw (p, p) (get-set d e l (rw p at h))
  ]

  pub get-pop : (l : List (ℕ × DataOutInfo)) → recv_get itt (recv_pop itt l) ≡ none
  unfolding recv_get recv_pop
  get-pop [] = refl
  get-pop ((k, x) ∷ l) = elim (Bool-cases (k == itt)) [
    | inl p ↦ rw p (get-pop l)
    | inr p ↦ rw (p, p) (get-pop l)
  ]

pub length-store_at :
    (ix : LbaIndex) (i : ℕ) (ws : WriteSegment) (l : List WriteCache)
    → length (store_at ix i ws l) ≡ length l
length-store_at ix i ws [] = refl
length-store_at ix zero ws (c ∷ l) = refl
length-store_at ix (suc i) ws (c ∷ l) = ap suc (length-store_at ix i ws l)

-- What storing a segment leaves as it is.
pub record Kept (s s' : Session) : Type 0 where
  pub recvinfo : s'.recvinfo ≡ s.recvinfo
  pub sendtask : s'.sendtask ≡ s.sendtask
  pub statsn : s'.statsn ≡ s.statsn
  pub mrds : s'.mrds ≡ s.mrds
  pub caches : length s'.wcaches ≡ length s.wcaches

-- A PDU with data of a transfer, for one of k LUNs, with at most n bytes, all of which have come if
-- it is the last one; the last one is final.
pub record Part (itt k n : ℕ) (r : DataOutReq) : Type 0 where
  pub op : r.op_code ≡ 0x05
  pub tag : r.itt ≡ itt
  pub lun : r.lun < k
  pub some_bytes : 0 < r.dlength
  pub enough : r.dlength ≤ n
  pub last : n - r.dlength ≡ 0 → r.final ≡ true

abbrev pub Parts : ℕ → ℕ → ℕ → List (DataOutReq × Token) → Type 0
Parts itt k n [] = n ≡ 0
Parts itt k n ((r, t) ∷ l) = Part itt k n r × Parts itt k (n - r.dlength) l

-- The handler on each PDU in turn, until one fails.
abbrev pub run : LbaIndex → List (DataOutReq × Token) → Session → Bool × Session
run ix [] s = (true, s)
run ix ((r, t) ∷ l) s =
    let rest = run ix l (handle_data_out ix r t s).1 in
    if (handle_data_out ix r t s).0 then rest else handle_data_out ix r t s

-- An R2T that asks for no more than MaxRecvDataSegmentLength and than what is left of `total` bytes.
abbrev pub Asks : ℕ → ℕ → ℕ → Task → Type 0
Asks itt total mrds (task_send (pdu_r2t r)) =
    (r.itt ≡ itt) × (r.ttt ≡ itt) × (r.desired ≤ mrds) × (r.offset + r.desired ≤ total)
Asks itt total mrds _ = ⊥

abbrev pub Answers : ℕ → ℕ → Task → Type 0
Answers itt statsn (task_send (pdu_scsi_rsp r)) = (r.itt ≡ itt) × (r.statsn ≡ statsn)
Answers itt statsn _ = ⊥

-- The transfer is done.
pub record Completed (itt : ℕ) (total : ℕ) (s : Session) (ok : Bool) (s' : Session) : Type 0 where
  pub succeeds : ok ≡ true
  pub asked : List Task
  pub response : Task
  pub queued : s'.sendtask ≡ s.sendtask ++ (asked ++ (response ∷ []))
  pub asks : All (Asks itt total s.mrds) asked
  pub answers : Answers itt s.statsn response
  pub closed : recv_get itt s'.recvinfo ≡ none
  pub counted : s'.statsn ≡ (next_sn s.statsn).1

-- The handler on a PDU of the transfer: the rest of it, on a session that keeps all but the caches.
pub step :
    (ix : LbaIndex) (r : DataOutReq) (t : Token) (s : Session) (d : DataOutInfo) (n : ℕ)
    → Part r.itt (length s.wcaches) n r
    → recv_get r.itt s.recvinfo ≡ some d
    → (s' : Session) × Kept s s' × (handle_data_out ix r t s ≡ finish_data_out r d s')
unfolding handle_data_out
step ix r t s d n p g =
    let op : (r.op_code == 0x05) ≡ true = ground (arith, p.op) in
    let lun : leb (length s.wcaches) r.lun ≡ false = ground (arith, p.lun) in
    elim (Option-cases (
      front_data_segment t (add64 d.lba (offset2lba (sub32 d.total d.remain)))
        (offset2lba r.dlength))) [
          | inl e ↦ (
            s,
            record { recvinfo = refl; sendtask = refl; statsn = refl; mrds = refl; caches = refl },
            rw (op, g, e),
          )
          | inr (ws, e) ↦ (
            store ix r.lun ws s,
            record {
              recvinfo = refl;
              sendtask = refl;
              statsn = refl;
              mrds = refl;
              caches = length-store_at ix r.lun ws s.wcaches;
            },
            rw (op, g, e, lun),
          )
        ]
