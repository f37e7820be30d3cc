-- ===== src/Read/Whole.antt =====
-- ReadHandler::handle: the session after an accepted READ(10).
use sstoraged.Common.{
  ℕ, ◌+◌, ◌*◌, ◌%◌, ◌^◌, ◌≤◌, ◌<◌, ◌≡◌, refl, true, false, ltb, leb, ◌==◌, some, List, [], ◌∷◌,
  ◌++◌, All, get_elem?, arith, ◌⊎◌,
}
use sstoraged.Counter.Laws.{next_sn_lem}
use sstoraged.Cache.{WriteCache, LbaIndex, search}
use sstoraged.Cache.Search.{Ordered}
use sstoraged.Session.{Session, CommandReq, Task, task_cork, task_uncork, advance_statsn}
use sstoraged.Read.{first_reply, read_tasks, handle_read, push_all}
use sstoraged.Read.Hits.{blocks, view}
use sstoraged.Read.Serve.{Sized, read_tasks-view}

-- A request that passes the guards of the handler, for a LUN of `total` blocks with the cache `c`.
pub record Accepted (req : CommandReq) (s : Session) (total : ℕ) (c : WriteCache) : Type 0 where
  pub read_only : (req.flag_read ≡ true) × (req.flag_write ≡ false)
  pub cdb : (req.cdb_op_code ≡ 0x28) × (req.protect ≡ 0) × (req.dpo ≡ false)
  pub final : req.final ≡ true
  pub lun : s.lun_size req.lun ≡ some total
  pub some_blocks : 0 < req.transfer_length
  pub in_volume : req.lba + req.transfer_length ≤ total
  pub cache : get_elem? s.wcaches req.lun ≡ some c

module _ (ix : LbaIndex) (fuel : ℕ) (req : CommandReq) (s : Session) (total : ℕ) (c : WriteCache)
    (a : Accepted req s total c) where
  guards :
      (l : List Task)
      → read_tasks fuel s.mrds
          (search ix c.index req.lba req.transfer_length)
          (first_reply req s)
          req.lba
          req.transfer_length
        ≡ some (true, l)
      → handle_read ix fuel req s
        ≡ some (true, push_all (task_cork ∷ (l ++ (task_uncork ∷ []))) (advance_statsn s))
  unfolding handle_read
  guards l e =
      let p : (req.cdb_op_code == 0x28) ≡ true = ground (arith, a.cdb) in
      let q : (req.protect == 0) ≡ true = ground (arith, a.cdb) in
      let r : leb total req.lba ≡ false = ground (arith, a.in_volume, a.some_blocks) in
      let t : (req.transfer_length == 0) ≡ false = ground (arith, a.some_blocks) in
      let u : ltb total (req.lba + req.transfer_length) ≡ false = ground (arith, a.in_volume) in
      rw (a.read_only.0, a.read_only.1, p, q, a.cdb.2, a.final, a.lun, r, t, u, a.cache, e)

-- An accepted READ(10) whose range misses the write cache or fits in one PDU succeeds: it queues,
-- between a cork and an uncork, tasks that deliver the range block by block, each from the live
-- segment of the cache that covers it or else from disk, advances StatSN by one and leaves the command
-- numbers. The keys of the
-- cache's index are in order and its live ranges are disjoint; MaxRecvDataSegmentLength is a
-- positive multiple of 512 below 2^24, the transfer has less than 2^16 blocks, and the fuel is no
-- less than their number. The LBA, StatSN and the lengths in the cache are of 32 bits, and no range in
-- the cache wraps.
pub handle_read-view :
    (ix : LbaIndex) (fuel : ℕ) (req : CommandReq) (s : Session) (total : ℕ) (c : WriteCache)
    (most : ℕ)
    → Accepted req s total c
    → Ordered c.index
    → All Sized c.index
    → s.mrds ≡ 512 * most
    → 0 < most
    → most < 2 ^ 15
    → req.transfer_length ≤ fuel
    → req.transfer_length < 2 ^ 16
    → req.lba < 2 ^ 32
    → s.statsn < 2 ^ 32
    → (req.transfer_length ≤ most) ⊎ (search ix c.index req.lba req.transfer_length ≡ [])
    → (l : List Task) × (s' : Session) × (handle_read ix fuel req s ≡ some (true, s'))
      × (s'.sendtask ≡ s.sendtask ++ (task_cork ∷ (l ++ (task_uncork ∷ []))))
      × (blocks l ≡ view c.index req.lba req.transfer_length)
      × (s'.statsn ≡ (s.statsn + 1) % 2 ^ 32)
      × (s'.expcmdsn ≡ s.expcmdsn)
      × (s'.maxcmdsn ≡ s.maxcmdsn)
handle_read-view ix fuel req s total c most a o v whole p small f w x y z =
    let (l, e, b) =
      read_tasks-view s.mrds most whole p small ix c.index fuel req.lba req.transfer_length
        (first_reply req s) o v
        (record { place = refl; number = refl; counter = refl; not_final = refl }) a.some_blocks f w
        (omega arith) z in
    (
      l,
      push_all (task_cork ∷ (l ++ (task_uncork ∷ []))) (advance_statsn s),
      guards ix fuel req s total c a l e,
      refl,
      b,
      next_sn_lem s.statsn y,
      refl,
      refl,
    )
