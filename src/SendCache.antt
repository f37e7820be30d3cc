-- ===== src/SendCache.antt =====
-- src/sendcache.cpp: SendCacheTask, which sends blocks of a write segment out of its buffers. The
-- buffers are given by their sizes. What writev takes of the bytes it is offered is an argument, 0
-- where it fails or would block.
pub mod Place
pub mod Position
use sstoraged.Common.{
  ℕ, zero, suc, ◌+◌, ◌-◌, ◌%◌, ◌^◌, min, Bool, true, false, not, ltb, leb, ◌==◌, if◌then◌else◌,
  List, [], ◌∷◌, length, drop, add64, sub64,
}
use sstoraged.Cache.{lba2offset}

pub record SendCacheTask : Type 0 where
  pub sizes : List ℕ
  pub ds_offset : ℕ
  pub total_remain : ℕ
  pub cur_index : ℕ
  pub offset : ℕ

-- The loop of `_stepForward`, over the buffers from `cur_index` on: whether it has stepped over all of
-- `tmp`, and what it leaves in `cur_index` and `offset`.
unfoldable pub advance : ℕ → ℕ → List ℕ → ℕ → ℕ → ℕ → Bool × ℕ × ℕ
advance total ds [] cur offset tmp = (tmp == 0, cur, offset)
advance total ds (b ∷ l) cur offset tmp =
    let remain = min total (sub64 (sub64 b offset) (if cur == 0 then ds else 0)) in
    let rest = advance total ds l (cur + 1) 0 (tmp - remain) in
    if tmp == 0
    then (true, cur, offset)
    else if leb remain tmp
    then rest
    else (true, cur, offset + tmp)

unfoldable pub step : SendCacheTask → ℕ → Bool × SendCacheTask
unfolding advance
step t size =
    let (ok, cur, offset) =
      advance t.total_remain t.ds_offset (drop t.cur_index t.sizes) t.cur_index t.offset size in
    (ok, record t { cur_index = cur; offset = offset })

-- The constructor, for `length` blocks from `clba` on of a segment that begins at `lba`.
unfoldable pub new_task : List ℕ → ℕ → ℕ → ℕ → ℕ → SendCacheTask
unfolding step
new_task sizes ds lba clba length =
    let skip = lba2offset (sub64 clba lba) in
    let t : SendCacheTask = record {
      sizes = sizes;
      ds_offset = ds;
      total_remain = lba2offset length;
      cur_index = 0;
      offset = 0;
    } in
    let (ok, t') = step (record t { total_remain = add64 t.total_remain skip }) skip in
    if ltb lba clba then record t' { total_remain = sub64 t'.total_remain skip } else t

-- `stepForward`
unfoldable pub step_forward : SendCacheTask → ℕ → Bool × SendCacheTask
unfolding step
step_forward t size =
    let (ok, t') = step t size in
    if leb (length t.sizes) t.cur_index
    then (false, t)
    else if ltb t.total_remain size
    then (false, t)
    else if ok
    then (true, record t' { total_remain = t'.total_remain - size })
    else (false, t')

-- `run`, against what writev takes in each round: whether the task is done.
unfoldable pub run_task : List ℕ → SendCacheTask → Bool × SendCacheTask
unfolding step_forward
run_task [] t = (false, t)
run_task (n ∷ ns) t =
    let (ok, t') = step_forward t n in
    let rest = run_task ns t' in
    if leb (length t.sizes) t.cur_index
    then (false, t)
    else if n == 0
    then (false, t)
    else if t.total_remain == n
    then (true, t)
    else if ok
    then rest
    else (true, t')
