-- ===== src/Tests/WriterCases.antt =====
-- 1000 bytes in two calls, the second of them interrupted once.
use sstoraged.Common.{ℕ, ◌*◌, ◌≡◌, ◌≢◌, refl, Bool, true, false, none, some, List, [], ◌∷◌, arith}
use sstoraged.Cache.{WriteSegment, new_segment}
use sstoraged.Limitter.{pool_hard}
use sstoraged.Volume.{LowHandle}
use sstoraged.DiskWriter.{
  Pwrite, pwrite_size, pwrite_eintr, pwrite_error, do_write, write_segment, Work, do_work,
}
use sstoraged.DiskWriter.Extents.{Written, do_write-Written}
use sstoraged.DiskWriter.Resolve.{Laid}
use sstoraged.DiskWriter.Lands.{PartDone}
use sstoraged.DiskWriter.Segment.{source, write_segment-PartDone}
use sstoraged.DiskWriter.Order.{view, write_all, do_work-view}

abbrev calls : List Pwrite
calls = pwrite_size 600 ∷ pwrite_eintr ∷ pwrite_size 400 ∷ []

do_write-Written_example : Written 5000 1000 512 (do_write calls 5000 1000 512)
do_write-Written_example =
    do_write-Written calls 5000 1000 512
      (omega arith, λ _. (omega arith, λ n. absurd (omega (arith, n)))) (omega arith) (omega arith)

-- Two files, and a segment of two blocks, one in each.
abbrev two_handles : List (ℕ × LowHandle)
two_handles =
    (0, record { path = 1; offset = 0; length = 4096 })
    ∷ (4096, record { path = 2; offset = 1024; length = 8192 })
    ∷ []

two_handles-Laid : Laid two_handles
two_handles-Laid = (
  omega arith,
  (
    omega arith,
    (omega arith, ((omega arith, tt), (omega arith, (omega arith, (omega arith, (tt, tt)))))),
  ),
)

abbrev two_blocks : WriteSegment
two_blocks = record (new_segment 3 7 2) { cbufs = 5 ∷ []; ds_offset = 48; stored = 1024 }

abbrev half_calls : ℕ → List Pwrite
half_calls n = pwrite_size 512 ∷ pwrite_error ∷ []

half_calls-return : (k ptr count offset : ℕ) → do_write (half_calls k) ptr count offset ≢ none
unfolding do_write
half_calls-return k ptr count offset = λ e. ground (arith, e)

write_segment-PartDone_example :
    PartDone two_handles half_calls
      (λ b. b * 1000000)
      0
      (source (5 ∷ []) 48)
      3584
      1024
      (write_segment half_calls (λ b. b * 1000000) two_handles two_blocks 0)
write_segment-PartDone_example =
    write_segment-PartDone two_handles half_calls (λ b. b * 1000000) two_handles-Laid
      half_calls-return two_blocks 0 (omega arith) (omega arith) (omega arith)
      (λ j lt e. ground (arith, lt, e))

abbrev dirty : Work
dirty = record {
  cache = record { fifo = 3 ∷ []; index = two_blocks ∷ []; next_ptr = 4 };
  made = 0;
  counter = 0;
  notified = 0;
  calls = [];
}

do_work-view_example :
    view half_calls
      (λ b. b * 1000000)
      two_handles
      (do_work half_calls (λ b. b * 1000000) two_handles (λ n. pool_hard) dirty)
    ≡ write_all half_calls (λ b. b * 1000000) two_handles (two_blocks ∷ []) 0 []
do_work-view_example =
    do_work-view half_calls (λ b. b * 1000000) two_handles (λ n. pool_hard) dirty
      (two_blocks, (refl, ((λ e. ground (arith, e)), tt)))

all_written :
    (elim (do_work half_calls (λ b. b * 1000000) two_handles (λ n. pool_hard) dirty)
      as (λ o. Bool × List ℕ) [ none ↦ (false, []) | some (ok, w) ↦ (ok, w.cache.fifo) ])
    ≡ (true, [])
unfolding do_work
all_written = refl
