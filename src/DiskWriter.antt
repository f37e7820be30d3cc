-- ===== src/DiskWriter.antt =====
-- src/diskwriter.cpp: addHandle, getHandle, doWrite, needNotify and doWork. What pwrite64 returns in
-- each round of each doWrite, the addresses of the buffers and the state of the pool after each
-- segment are arguments. A handle is named by its path, as in Volume.
pub mod Extents
pub mod Resolve
pub mod Lands
pub mod Segment
pub mod Order
use sstoraged.Common.{
  ℕ, zero, suc, ◌+◌, ◌%◌, ◌^◌, min, Bool, true, false, not, ltb, ◌==◌, if◌then◌else◌, Option, none,
  some, List, [], ◌∷◌, ◌++◌, length, add64, sub64,
}
use sstoraged.Cache.{WriteSegment, WriteCache, lba2offset, find, front, pop}
use sstoraged.Counter.{next_sn}
use sstoraged.Limitter.{PoolState, pool_normal, pool_soft, pool_hard}
use sstoraged.Volume.{LowHandle}
use sstoraged.Buffers.{common_buf_size}

-- A call of pwrite64: the bytes written, EINTR, or another error.
pub data Pwrite : Type 0 where
  pwrite_size : ℕ → Pwrite
  pwrite_eintr pwrite_error : Pwrite

-- What a call has written: from `ptr` of the buffer, at `offset` of the file.
pub record Extent : Type 0 where
  pub ptr : ℕ
  pub offset : ℕ
  pub size : ℕ

abbrev pub extend : Extent → Option (Bool × List Extent) → Option (Bool × List Extent)
extend e none = none
extend e (some (ok, l)) = some (ok, e ∷ l)

-- `doWrite`: whether it succeeds and what it has written; `none` while it is still calling.
unfoldable pub do_write : List Pwrite → ℕ → ℕ → ℕ → Option (Bool × List Extent)
do_write [] ptr count offset = none
do_write (pwrite_eintr ∷ l) ptr count offset = do_write l ptr count offset
do_write (pwrite_error ∷ l) ptr count offset = some (false, [])
do_write (pwrite_size n ∷ l) ptr count offset =
    let here : Extent = record { ptr = ptr; offset = offset; size = n } in
    let rest = do_write l (add64 ptr n) (sub64 count n) (add64 offset n) in
    if n == count then some (true, here ∷ []) else extend here rest

-- The map of handles, by ascending offset. `addHandle`
unfoldable pub add_handle : LowHandle → ℕ → List (ℕ × LowHandle) → List (ℕ × LowHandle)
add_handle h offset [] = (offset, h) ∷ []
add_handle h offset ((k, g) ∷ l) =
    let rest = add_handle h offset l in
    if ltb offset k
    then (offset, h) ∷ (k, g) ∷ l
    else if offset == k
    then (offset, h) ∷ l
    else (k, g) ∷ rest

-- The entry that `getHandle` takes: the one before lower_bound(start) where that one begins later or
-- is the end, and there is one before.
abbrev pub or_else : ℕ × LowHandle → Option (ℕ × LowHandle) → ℕ × LowHandle
or_else e none = e
or_else e (some d) = d

unfoldable pub entry_at : ℕ → Option (ℕ × LowHandle) → List (ℕ × LowHandle) → Option (ℕ × LowHandle)
entry_at start before [] = before
entry_at start before ((k, h) ∷ l) =
    let later = entry_at start (some (k, h)) l in
    if ltb k start then later else if ltb start k then some (or_else (k, h) before) else some (k, h)

-- `getHandle`: the handle, what it covers and the offset in it; `none` for INVALID_HANDLE_VALUE.
abbrev pub cover : ℕ → ℕ → Option (ℕ × LowHandle) → Option (ℕ × ℕ × ℕ)
cover start length none = none
cover start length (some (k, h)) =
    let real_offset = add64 (sub64 start k) h.offset in
    let covered = min length (sub64 (add64 h.length h.offset) real_offset) in
    if ltb start k then none else if covered == 0 then none else some (h.path, covered, real_offset)

unfoldable pub get_handle : List (ℕ × LowHandle) → ℕ → ℕ → Option (ℕ × ℕ × ℕ)
unfolding entry_at
get_handle handles start length = cover start length (entry_at start none handles)

-- `needNotify`, with its counter.
abbrev pub need_notify : PoolState → ℕ → Bool × ℕ
need_notify pool_normal counter = (false, counter)
need_notify pool_soft counter = (true, counter)
need_notify pool_hard counter =
    let (value, counter') = next_sn counter in (value % 2 == 0, counter')

-- A call of doWrite: `size` bytes of the buffer `buf`, from `buf_offset`, to `offset` of a file.
pub record WriteCall : Type 0 where
  pub path : ℕ
  pub buf : ℕ
  pub buf_offset : ℕ
  pub size : ℕ
  pub offset : ℕ

-- Whether all is written, the next offset on the disk, how many calls of doWrite there were, and
-- those that succeeded. `none` is a doWrite that has not returned.
abbrev pub Part : Type 0
Part = Option (Bool × ℕ × ℕ × List WriteCall)

abbrev pub after_calls : List WriteCall → Part → Part
after_calls l none = none
after_calls l (some (ok, start, n, m)) = some (ok, start, n, l ++ m)

-- The state of a writer: the calls of doWrite made, and the counter of needNotify.
pub record Work : Type 0 where
  pub cache : WriteCache
  pub made : ℕ
  pub counter : ℕ
  pub notified : ℕ
  pub calls : List WriteCall

module _ (outcomes : ℕ → List Pwrite) (head : ℕ → ℕ) (handles : List (ℕ × LowHandle)) where
  -- The loop over the handles of a part of a buffer; each covers a byte at least.
  unfoldable pub write_part : ℕ → ℕ → ℕ → ℕ → ℕ → ℕ → ℕ → Part
  unfolding get_handle do_write
  write_part zero name ds start segment offset n = none
  write_part (suc fuel) name ds start segment offset n =
      if segment == 0 then some (true, start, n, []) else elim (get_handle handles start segment) [
        | none ↦ some (false, start, n, [])
        | some (path, covered, real_offset) ↦
            elim (do_write (outcomes n) (head name + ds + offset) covered real_offset) [
              | none ↦ none
              | some (false, l) ↦ some (false, start, suc n, [])
              | some (true, l) ↦
                  after_calls
                    (record {
                      path = path;
                      buf = name;
                      buf_offset = ds + offset;
                      size = covered;
                      offset = real_offset;
                    }
                      ∷ [])
                    (write_part fuel name ds (add64 start covered) (sub64 segment covered)
                      (add64 offset covered) (suc n))
            ]
      ]

  -- The loop over the buffers of a segment: `length` bytes are left.
  unfoldable pub write_bufs : List ℕ → ℕ → ℕ → ℕ → ℕ → Part
  unfolding write_part
  write_bufs [] ds start length n = some (length == 0, start, n, [])
  write_bufs (b ∷ l) ds start length n =
      let segment = min length (sub64 common_buf_size ds) in
      elim (write_part (suc segment) b ds start segment 0 n) [
        | none ↦ none
        | some (false, start', n', calls) ↦ some (false, start', n', calls)
        | some (true, start', n', calls) ↦
            after_calls calls (write_bufs l 0 start' (sub64 length segment) n')
      ]

  abbrev pub write_segment : WriteSegment → ℕ → Part
  unfolding write_bufs
  write_segment ws n =
      write_bufs ws.cbufs ws.ds_offset (lba2offset ws.lba) (lba2offset ws.transfer_length) n

  module _ (pool : ℕ → PoolState) where
    -- The rest of a round, behind the loops over the segment at the front of `c`; `again` is the next.
    abbrev pub end_round : (Work → Option (Bool × Work)) → Work → Option (Bool × Work)
    end_round again w = elim w.cache.fifo [ [] ↦ some (true, w) | _ ∷ _ ↦ again w ]

    unfoldable pub after_segment :
        (Work → Option (Bool × Work)) → Work → WriteCache → Part → Option (Bool × Work)
    unfolding pop
    after_segment again w c none = none
    after_segment again w c (some (false, start, n, l)) =
        some (false, record w { cache = c; made = n; calls = w.calls ++ l })
    after_segment again w c (some (true, start, n, l)) =
        let (need, counter) = need_notify (pool n) w.counter in
        end_round again (record {
          cache = pop c;
          made = n;
          counter = counter;
          notified = if need then suc w.notified else w.notified;
          calls = w.calls ++ l;
        })

    -- The loop of `doWork` on a cache that is not empty; a round takes one segment at least.
    unfoldable pub write_loop : ℕ → Work → Option (Bool × Work)
    unfolding front after_segment write_segment
    write_loop zero w = none
    write_loop (suc fuel) w = elim (front w.cache) [
      | none ↦ none
      | some (none, c) ↦ none
      | some (some p, c) ↦ elim (find p c.index) [
        | none ↦ none
        | some ws ↦ after_segment (write_loop fuel) w c (write_segment ws w.made)
      ]
    ]

    unfoldable pub do_work : Work → Option (Bool × Work)
    unfolding write_loop
    do_work w = elim w.cache.fifo [
      | [] ↦ some (true, w)
      | _ ∷ _ ↦ write_loop (length w.cache.fifo) w
    ]
