-- ===== src/Transfer/Open.antt =====
-- WRITE(10) from the command to the response, where no immediate data is negotiated, and the command
-- without immediate data where it is.
use sstoraged.Common.{
  ℕ, ◌+◌, ◌*◌, ◌%◌, ◌^◌, ◌≤◌, ◌<◌, ◌≡◌, refl, true, false, ◌||◌, ltb, leb, ◌==◌, ==_refl, none,
  some, List, [], ◌∷◌, ◌++◌, length, arith, Bool-cases, inl, inr,
}
use sstoraged.Cache.{LbaIndex, lba2offset}
use sstoraged.Session.{Session, CommandReq, DataOutInfo, Token, Task, recv_get, recv_put}
use sstoraged.Transfer.{DataOutReq, handle_write, await_data, numbered}
use sstoraged.Transfer.Sequence.{Parts, Asks, Completed, run}
use sstoraged.Transfer.Complete.{run-Completed}

-- A write that passes the guards of the handler, for a LUN of `total` blocks, with a fresh tag.
pub record Accepted (req : CommandReq) (s : Session) (total : ℕ) : Type 0 where
  pub write_only : (req.flag_write ≡ true) × (req.flag_read ≡ false)
  pub cdb : (req.cdb_op_code ≡ 0x2a) × (req.protect ≡ 0) × (req.dpo ≡ false)
  pub burst : 512 * req.transfer_length ≤ s.max_burst_length
  pub lun : s.lun_size req.lun ≡ some total
  pub some_blocks : 0 < req.transfer_length
  pub short : req.transfer_length < 2 ^ 16
  pub in_volume : req.lba + req.transfer_length ≤ total
  pub fresh : recv_get req.itt s.recvinfo ≡ none

get-put :
    (itt : ℕ) (d : DataOutInfo) (l : List (ℕ × DataOutInfo))
    → recv_get itt l ≡ none
    → recv_get itt (recv_put itt d l) ≡ some d
unfolding recv_put recv_get
get-put itt d l h = rw (h, recv_put, recv_get) (rw (==_refl itt))

-- The session after the command: the receive task, and the R2T if there is one.
pub record Opened (req : CommandReq) (s s' : Session) : Type 0 where
  pub info : DataOutInfo
  pub open_task : recv_get req.itt s'.recvinfo ≡ some info
  pub whole :
      (info.lba ≡ req.lba) × (info.total ≡ 512 * req.transfer_length) × (info.remain ≡ info.total)
  pub caches : s'.wcaches ≡ s.wcaches
  pub statsn : s'.statsn ≡ s.statsn
  pub mrds : s'.mrds ≡ s.mrds
  pub solicited :
      s.initial_r2t ≡ true
      → (t : Task) × (s'.sendtask ≡ s.sendtask ++ (t ∷ []))
        × Asks req.itt (512 * req.transfer_length) s.mrds t

module _ (ix : LbaIndex) (req : CommandReq) (token : Token) (s : Session) (total : ℕ)
    (a : Accepted req s total) where
  guards :
      s.immediate_data ≡ false
      → handle_write ix req token s
        ≡ (true, await_data req (lba2offset req.transfer_length % 2 ^ 32) s)
  unfolding handle_write
  guards i =
      let p : (req.cdb_op_code == 0x2a) ≡ true = ground (arith, a.cdb) in
      let q : (req.protect == 0) ≡ true = ground (arith, a.cdb) in
      let m : ltb s.max_burst_length (lba2offset req.transfer_length) ≡ false =
        ground (arith, a.burst, a.short) in
      let r : leb total req.lba ≡ false = ground (arith, a.in_volume, a.some_blocks) in
      let t : (req.transfer_length == 0) ≡ false = ground (arith, a.some_blocks) in
      let u : ltb total (req.lba + req.transfer_length) ≡ false = ground (arith, a.in_volume) in
      rw (a.write_only.0, a.write_only.1, p, q, a.cdb.2, m, a.lun, r, t, u, i)

  await-Opened : Opened req s (await_data req (lba2offset req.transfer_length % 2 ^ 32) s)
  await-Opened = elim (Bool-cases (s.initial_r2t || leb s.first_burst_length req.dlength)) [
    | inl e ↦ rw e (record {
      info = numbered first;
      open_task = get-put req.itt (numbered first) s.recvinfo a.fresh;
      whole = (refl, bytes, refl);
      caches = refl;
      statsn = refl;
      mrds = refl;
      solicited = λ _. (_, refl, (refl, refl, omega arith, omega (arith, bytes)));
    })
    | inr e ↦ rw e (record {
      info = first;
      open_task = get-put req.itt first s.recvinfo a.fresh;
      whole = (refl, bytes, refl);
      caches = refl;
      statsn = refl;
      mrds = refl;
      solicited = λ i. absurd (silent i e);
    })
  ]
    where
      first : DataOutInfo
      first = record {
        lba = req.lba;
        total = lba2offset req.transfer_length % 2 ^ 32;
        remain = lba2offset req.transfer_length % 2 ^ 32;
        r2tsn_gen = 0;
      }

      bytes : lba2offset req.transfer_length % 2 ^ 32 ≡ 512 * req.transfer_length
      bytes = omega (arith, a.short)

      silent :
          s.initial_r2t ≡ true → ¬ ((s.initial_r2t || leb s.first_burst_length req.dlength) ≡ false)
      silent i e = ground arith

-- A WRITE(10) without immediate data that passes the guards is accepted and, with InitialR2T, is
-- answered by one R2T within the transfer; Data-Out PDUs that bring its bytes then complete it.
pub write-Completed :
    (ix : LbaIndex) (req : CommandReq) (token : Token) (s : Session) (total : ℕ)
    (l : List (DataOutReq × Token))
    → Accepted req s total
    → s.immediate_data ≡ false
    → Parts req.itt (length s.wcaches) (512 * req.transfer_length) l
    → (s' : Session) × (handle_write ix req token s ≡ (true, s'))
      × Opened req s s'
      × Completed req.itt (512 * req.transfer_length) s' (run ix l s').0 (run ix l s').1
write-Completed ix req token s total l a i h =
    let s' = await_data req (lba2offset req.transfer_length % 2 ^ 32) s in
    let o = await-Opened ix req token s total a in
    (
      s',
      guards ix req token s total a i,
      o,
      rw o.whole.1 at (
          run-Completed ix l req.itt s' o.info o.open_task (omega (arith, o.whole, a.some_blocks))
            (omega (arith, o.whole)) (omega (arith, o.whole, a.short))
            (rw (o.caches, o.whole.2, o.whole.1) h)),
    )
