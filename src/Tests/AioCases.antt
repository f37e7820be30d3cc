-- ===== src/Tests/AioCases.antt =====
-- Two segments under way, of two writes and of one; two writes end, of the second segment and of the
-- first.
use sstoraged.Common.{ℕ, ◌+◌, ◌≡◌, refl, true, some, [], ◌∷◌, length, arith}
use sstoraged.Cache.{WriteSegment, new_segment, WriteCache, front, pop}
use sstoraged.Limitter.{pool_soft}
use sstoraged.AioWriter.{AioWork, end_all}
use sstoraged.AioWriter.Ends.{spent, popped, all_written, Underway, end_all-spent}

abbrev first : WriteSegment
first = new_segment 0 10 8

abbrev second : WriteSegment
second = new_segment 1 20 4

abbrev cached : WriteCache
cached = record { fifo = 0 ∷ 1 ∷ []; index = first ∷ second ∷ []; next_ptr = 2 }

abbrev work : AioWork
work = record {
  cache = cached;
  current_ws = some 1;
  submitted = [];
  iocbs_sizes = 2 ∷ 1 ∷ [];
  iocbs_total = 3;
  counter = 0;
  notified = 0;
  popped = 0;
}

abbrev emptied : WriteCache
emptied = record { fifo = []; index = []; next_ptr = 2 }

two_popped : popped 2 cached ≡ some emptied
unfolding front pop
two_popped = refl

abbrev work_Underway : Underway work
work_Underway = record {
  counted = refl;
  positive = (omega arith, (omega arith, tt));
  small = omega arith;
  last = emptied;
  enough = two_popped;
}

end_all-spent_example :
    (w' : AioWork) × (end_all (λ n. pool_soft) (all_written 2) work ≡ some (true, w'))
    × Underway w'
    × (w'.iocbs_sizes ≡ spent 2 work.iocbs_sizes)
    × (w'.iocbs_total + 2 ≡ work.iocbs_total)
    × (k : ℕ) × (k + length w'.iocbs_sizes ≡ length work.iocbs_sizes)
    × (popped k work.cache ≡ some w'.cache)
end_all-spent_example = end_all-spent (λ n. pool_soft) 2 work work_Underway (omega arith)
