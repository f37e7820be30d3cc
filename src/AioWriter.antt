-- ===== src/AioWriter.antt =====
-- src/diskwriter.cpp: AioDiskWriter, which gives the parts of a segment to libaio and takes their ends.
-- doWork and doListenerWork run here one after the other, not at the same time. What io_getevents returns
-- is an argument. An iocb is given by the write that it asks for, as in DiskWriter.
pub mod Ends
use sstoraged.Common.{
  ℕ, zero, suc, ◌+◌, ◌-◌, min, Bool, true, false, not, ltb, leb, ◌==◌, ◌&&◌, if◌then◌else◌, Option,
  none, some, List, [], ◌∷◌, ◌++◌, length, add64, sub64,
}
use sstoraged.Cache.{WriteSegment, WriteCache, lba2offset, find, front, pop, get_next}
use sstoraged.Counter.{increase, decrement}
use sstoraged.Limitter.{PoolState}
use sstoraged.Volume.{LowHandle}
use sstoraged.Buffers.{common_buf_size}
use sstoraged.DiskWriter.{get_handle, need_notify, WriteCall}

abbrev pub iocb_max : ℕ
iocb_max = 64

-- The state of the writer: what it has submitted, the sizes of the segments that are under way, and
-- their total.
pub record AioWork : Type 0 where
  pub cache : WriteCache
  pub current_ws : Option ℕ
  pub submitted : List (List WriteCall)
  pub iocbs_sizes : List ℕ
  pub iocbs_total : ℕ
  pub counter : ℕ
  pub notified : ℕ
  pub popped : ℕ

-- Whether all is prepared, the next offset on the disk, and the iocbs. `none` is an iocb that the array
-- has no room for, and the end of the fuel.
abbrev pub Prepared : Type 0
Prepared = Option (Bool × ℕ × List WriteCall)

module _ (handles : List (ℕ × LowHandle)) where
  -- The loop over the handles of a part of a buffer; each covers a byte at least.
  unfoldable pub prepare_part : ℕ → ℕ → ℕ → ℕ → ℕ → ℕ → List WriteCall → Prepared
  unfolding get_handle
  prepare_part zero name ds start segment offset l = none
  prepare_part (suc fuel) name ds start segment offset l =
      if segment == 0 then some (true, start, l) else elim (get_handle handles start segment) [
        | none ↦ some (false, start, l)
        | some (path, covered, real_offset) ↦ elim (ltb (length l) iocb_max) [
          | false ↦ none
          | true ↦
              prepare_part fuel name ds (add64 start covered) (sub64 segment covered)
                (add64 offset covered)
                (l
                  ++ (record {
                    path = path;
                    buf = name;
                    buf_offset = ds + offset;
                    size = covered;
                    offset = real_offset;
                  }
                      ∷ []))
        ]
      ]

  -- The loop over the buffers of a segment: `length` bytes are left.
  unfoldable pub prepare_bufs : List ℕ → ℕ → ℕ → ℕ → List WriteCall → Prepared
  unfolding prepare_part
  prepare_bufs [] ds start left l = some (left == 0, start, l)
  prepare_bufs (b ∷ bs) ds start left l =
      let segment = min left (sub64 common_buf_size ds) in
      if leb iocb_max (length l)
      then some (left == 0, start, l)
      else elim (prepare_part (suc segment) b ds start segment 0 l) [
        | none ↦ none
        | some (false, start', l') ↦ some (false, start', l')
        | some (true, start', l') ↦ prepare_bufs bs 0 start' (sub64 left segment) l'
      ]

  abbrev pub prepare : WriteSegment → Prepared
  unfolding prepare_bufs
  prepare ws =
      prepare_bufs ws.cbufs ws.ds_offset (lba2offset ws.lba) (lba2offset ws.transfer_length) []

  -- The rest of a round: io_submit, and the counts.
  unfoldable pub submit : List WriteCall → AioWork → AioWork
  unfolding increase
  submit l w = record w {
    submitted = w.submitted ++ (l ∷ []);
    iocbs_sizes = w.iocbs_sizes ++ (length l ∷ []);
    iocbs_total = (increase 128 w.iocbs_total (length l)).0;
  }

  -- The loop of `doWork`; `none` is also a null or dangling pointer, and the end of the fuel.
  unfoldable pub submit_loop : ℕ → AioWork → Option (Bool × AioWork)
  unfolding prepare submit
  submit_loop zero w = none
  submit_loop (suc fuel) w =
      if leb iocb_max w.iocbs_total then some (true, w) else elim (get_next w.current_ws w.cache) [
        | none ↦ none
        | some (false, ws, c) ↦ some (true, record w { current_ws = ws; cache = c })
        | some (true, none, c) ↦ none
        | some (true, some p, c) ↦ elim (find p c.index) [
          | none ↦ none
          | some s ↦
              let w' : AioWork = record w { current_ws = some p; cache = c } in
              elim (prepare s) [
                | none ↦ none
                | some (false, start, l) ↦ some (false, w')
                | some (true, start, l) ↦ elim (leb iocb_max (length l)) [
                  | true ↦ some (false, w')
                  | false ↦ submit_loop fuel (submit l w')
                ]
              ]
        ]
      ]

  unfoldable pub aio_work : ℕ → AioWork → Option (Bool × AioWork)
  unfolding submit_loop
  aio_work fuel w = elim w.cache.fifo [ [] ↦ some (true, w) | _ ∷ _ ↦ submit_loop fuel w ]

-- What a call of io_getevents returns: the ends of iocbs, each with whether all of it was written, or an
-- error.
pub data Events : Type 0 where
  events_done : List Bool → Events
  events_error : Events

abbrev pub count_down : AioWork → AioWork
count_down w = record w { iocbs_total = (decrement 0 w.iocbs_total).0 }

module _ (pool : ℕ → PoolState) where
  -- The clean-up of the front, of a cache whose copies at the head are gone.
  abbrev pub clean_front : WriteCache → AioWork → AioWork
  clean_front c w =
      let (need, counter) = need_notify (pool w.popped) w.counter in
      record w {
        cache = pop c;
        counter = counter;
        notified = if need then suc w.notified else w.notified;
        popped = suc w.popped;
      }

  abbrev pub pop_segment : AioWork → Option AioWork
  pop_segment w = elim (front w.cache) [ none ↦ none | some (p, c) ↦ some (clean_front c w) ]

  -- One event. `none` is the front of an empty queue.
  unfoldable pub end_one : Bool → AioWork → Option (Bool × AioWork)
  unfolding decrement
  end_one ok w = elim w.iocbs_sizes [
    | [] ↦ none
    | n ∷ l ↦ elim ok [
      | false ↦ some (false, w)
      | true ↦ elim (sub64 n 1 == 0) [
        | false ↦ some (true, count_down (record w { iocbs_sizes = sub64 n 1 ∷ l }))
        | true ↦ elim (pop_segment (record w { iocbs_sizes = l })) [
          | none ↦ none
          | some w' ↦ some (true, count_down w')
        ]
      ]
    ]
  ]

  -- The events of one call.
  unfoldable pub end_all : List Bool → AioWork → Option (Bool × AioWork)
  unfolding end_one
  end_all [] w = some (true, w)
  end_all (ok ∷ l) w = elim (end_one ok w) [
    | none ↦ none
    | some (false, w') ↦ some (false, w')
    | some (true, w') ↦ end_all l w'
  ]

  -- `doListenerWork`; where the list of the calls ends, it waits.
  unfoldable pub listener_work : List Events → AioWork → Option (Bool × AioWork)
  unfolding end_all
  listener_work [] w = some (true, w)
  listener_work (events_error ∷ more) w =
      let rest = listener_work more w in if length w.iocbs_sizes == 0 then some (true, w) else rest
  listener_work (events_done [] ∷ more) w = some (true, w)
  listener_work (events_done (ok ∷ l) ∷ more) w =
      if length w.iocbs_sizes == 0 then some (true, w) else elim (end_all (ok ∷ l) w) [
        | none ↦ none
        | some (false, w') ↦ some (false, w')
        | some (true, w') ↦ listener_work more w'
      ]
