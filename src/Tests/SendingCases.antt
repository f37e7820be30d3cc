-- ===== src/Tests/SendingCases.antt =====
-- Two buffers with 5 and 2 bytes to send, and a range over the end of the first of two volumes.
use sstoraged.Common.{ℕ, ◌≡◌, refl, true, false, ◌⊎◌, some, Option, List, [], ◌∷◌, ◌++◌, arith}
use sstoraged.Buffers.{CommonBuf, common_buf_size}
use sstoraged.Volume.{PhysicalVolume}
use sstoraged.Volume.Layout.{layout}
use sstoraged.Sending.{SendTask, new_send_task, push_buf, run_send, SendfileTask, run_sendfile}
use sstoraged.Sending.Stream.{pending, Counts, Streamed, run_send-Streamed, run_send_done}
use sstoraged.Sending.File.{run_sendfile-layout}

abbrev first : CommonBuf
first = record { name = 1; size = common_buf_size; offset = 3; tail = 8 }

abbrev second : CommonBuf
second = record { name = 2; size = common_buf_size; offset = 0; tail = 2 }

abbrev task : SendTask
task = push_buf second (new_send_task first)

abbrev task_Counts : Counts task
task_Counts = record {
  sound = ((omega arith, (omega arith, refl)), ((omega arith, (omega arith, refl)), tt));
  counted = refl;
  small = omega arith;
}

-- The socket takes 4 bytes, then 2, then none.
run_send-Streamed_example : Streamed task (run_send (4 ∷ 2 ∷ 0 ∷ []) task)
run_send-Streamed_example = run_send-Streamed (4 ∷ 2 ∷ 0 ∷ []) task task_Counts

run_send_done_example :
    ((run_send (4 ∷ 1 ∷ 9 ∷ 9 ∷ 9 ∷ 9 ∷ 9 ∷ []) task).ok ≡ true)
    × ((run_send (4 ∷ 1 ∷ 9 ∷ 9 ∷ 9 ∷ 9 ∷ 9 ∷ []) task).stream ≡ pending task.cbufs)
run_send_done_example =
    run_send_done (4 ∷ 1 ∷ 9 ∷ 9 ∷ 9 ∷ 9 ∷ 9 ∷ []) task task_Counts (omega arith) (omega arith) (
      omega arith,
      (omega arith, (omega arith, (omega arith, (omega arith, (omega arith, (omega arith, tt)))))),
    )

abbrev volumes : List PhysicalVolume
volumes = record { path = 1; start = 0; count = 2 } ∷ record { path = 2; start = 0; count = 3 } ∷ []

abbrev range : SendfileTask
range = record { offset = 1020; remain = 8 }

-- The whole of the first handle, then 3 of the 4 bytes of the second.
abbrev calls : List (Option ℕ)
calls = some 4 ∷ some 3 ∷ []

run_sendfile-layout_example :
    ((run_sendfile volumes calls range).stream
        ++ layout volumes
            (run_sendfile volumes calls range).task.offset
            (run_sendfile volumes calls range).task.remain
      ≡ layout volumes 1020 8)
    × (((run_sendfile volumes calls range).ok ≡ true)
          × ((run_sendfile volumes calls range).task.remain ≡ 0)
        ⊎ ((run_sendfile volumes calls range).ok ≡ false))
run_sendfile-layout_example =
    run_sendfile-layout volumes calls range (refl, (refl, tt)) (omega arith) (omega arith)
      (omega arith)
