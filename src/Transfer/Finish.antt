-- ===== src/Transfer/Finish.antt =====
-- What one Data-Out PDU does to the open receive task: it goes on, or it ends.
use sstoraged.Common.{
  ℕ, ◌-◌, ◌^◌, ◌≤◌, ◌<◌, ◌≡◌, refl, sym, ap, ◌∙◌, min, Bool, true, false, ltb, ◌==◌, some, List, [],
  ◌∷◌, ◌++◌, All, length, arith, Bool-cases, inl, inr, sub32,
}
use mathlib.Core.List.{append-nil}
use sstoraged.Session.{
  Session, DataOutInfo, Task, recv_get, recv_set, pdu_r2t, pdu_scsi_rsp, task_send,
}
use sstoraged.Transfer.{DataOutReq, finish_data_out, numbered}
use sstoraged.Transfer.Sequence.{get-set, get-pop, Kept, Part, Asks, Completed}

-- The transfer goes on, with n bytes left.
pub record Onward (itt total n : ℕ) (s : Session) (ok : Bool) (s' : Session) : Type 0 where
  pub succeeds : ok ≡ true
  pub info : DataOutInfo
  pub open_task : recv_get itt s'.recvinfo ≡ some info
  pub total_same : info.total ≡ total
  pub left : info.remain ≡ n
  pub asked : List Task
  pub queued : s'.sendtask ≡ s.sendtask ++ asked
  pub asks : All (Asks itt total s.mrds) asked
  pub statsn : s'.statsn ≡ s.statsn
  pub mrds : s'.mrds ≡ s.mrds
  pub caches : length s'.wcaches ≡ length s.wcaches

module _ (r : DataOutReq) (s s' : Session) (d : DataOutInfo) (k : Kept s s')
    (p : Part r.itt (length s.wcaches) d.remain r) (g : recv_get r.itt s.recvinfo ≡ some d)
    (bound : d.remain ≤ d.total) (small : d.total < 2 ^ 32) where
  reopened : (e : DataOutInfo) → recv_get r.itt (recv_set r.itt e s'.recvinfo) ≡ some e
  reopened e = get-set r.itt d e s'.recvinfo (ap (recv_get r.itt) k.recvinfo ∙ g)

  fits : ltb d.remain r.dlength ≡ false
  fits = ground (arith, p.enough)

  pub finish-Completed :
      d.remain - r.dlength ≡ 0
      → Completed r.itt d.total s (finish_data_out r d s').0 (finish_data_out r d s').1
  unfolding finish_data_out
  finish-Completed z =
      let last = p.last z in
      let done : (d.remain - r.dlength == 0) ≡ true = ground arith in
      rw (fits, last, done)
        (record {
          succeeds = refl;
          asked = [];
          response = task_send (
              pdu_scsi_rsp (record {
                itt = r.itt;
                residual_count = 0;
                statsn = s'.statsn;
                expcmdsn = s'.expcmdsn;
                maxcmdsn = s'.maxcmdsn;
              }));
          queued = rw k.sendtask;
          asks = tt;
          answers = (refl, k.statsn);
          closed =
              get-pop r.itt
                (recv_set r.itt (record d { remain = d.remain - r.dlength }) s'.recvinfo);
          counted = rw k.statsn;
        })

  pub finish-Onward :
      0 < d.remain - r.dlength
      → Onward r.itt d.total
          (d.remain - r.dlength)
          s
          (finish_data_out r d s').0
          (finish_data_out r d s').1
  unfolding finish_data_out
  finish-Onward z =
      let more : (d.remain - r.dlength == 0) ≡ false = ground arith in
      elim (Bool-cases r.final) [
        | inr e ↦
            rw (fits, e)
              (record {
                succeeds = refl;
                info = record d { remain = d.remain - r.dlength };
                open_task = reopened (record d { remain = d.remain - r.dlength });
                total_same = refl;
                left = refl;
                asked = [];
                queued = k.sendtask ∙ sym (append-nil s.sendtask);
                asks = tt;
                statsn = k.statsn;
                mrds = k.mrds;
                caches = k.caches;
              })
        | inl e ↦
            rw (fits, e, more)
              (record {
                succeeds = refl;
                info = numbered (record d { remain = d.remain - r.dlength });
                open_task =
                    get-set r.itt (record d { remain = d.remain - r.dlength })
                      (numbered (record d { remain = d.remain - r.dlength }))
                      (recv_set r.itt (record d { remain = d.remain - r.dlength }) s'.recvinfo)
                      (reopened (record d { remain = d.remain - r.dlength }));
                total_same = refl;
                left = refl;
                asked =
                    task_send (
                      pdu_r2t (record {
                        itt = r.itt;
                        ttt = r.itt;
                        lun = r.lun;
                        statsn = s'.statsn;
                        expcmdsn = s'.expcmdsn;
                        maxcmdsn = s'.maxcmdsn;
                        offset = sub32 d.total (d.remain - r.dlength);
                        desired = min (d.remain - r.dlength) s'.mrds;
                        r2tsn = d.r2tsn_gen;
                      }))
                    ∷ [];
                queued = rw k.sendtask;
                asks = ((refl, refl, omega (arith, k.mrds), omega arith), tt);
                statsn = k.statsn;
                mrds = k.mrds;
                caches = k.caches;
              })
      ]
