-- ===== src/Sending.antt =====
-- src/send.cpp and src/sendfile.cpp: SendTask, which sends the buffers of a reply by `writev`, and
-- SendfileTask, which sends a range of a volume by `sendfile64`; and the iovec that the one is sent
-- from (IovecContainer::IovecContainer(SendTask *)). What the two calls return comes in a list, one
-- entry for each call; where it ends, the socket takes no more. A byte in memory is known by the name
-- of its buffer and its offset there.
pub mod Stream
pub mod File
use sstoraged.Common.{
  ℕ, zero, suc, ◌+◌, ◌-◌, min, Bool, true, false, ltb, leb, ◌==◌, if◌then◌else◌, Option, none, some,
  List, [], ◌∷◌, ◌++◌, length, take, add64, sub64,
}
use sstoraged.Cache.{lba2offset}
use sstoraged.Buffers.{CommonBuf, Slot, get_remain, step_forward_offset}
use sstoraged.Volume.{PhysicalVolume, LowHandle, get_low_handles}
use sstoraged.Volume.Layout.{Place, run, bytes}

-- `SendTask`
pub record SendTask : Type 0 where
  pub cbufs : List CommonBuf
  pub total_remain : ℕ

-- `SendTask::push`
abbrev pub push_buf : CommonBuf → SendTask → SendTask
push_buf b t = record {
  cbufs = t.cbufs ++ (b ∷ []);
  total_remain = add64 t.total_remain (get_remain b);
}

abbrev pub new_send_task : CommonBuf → SendTask
new_send_task b = push_buf b (record { cbufs = []; total_remain = 0 })

-- The loop of `SendTask::stepForward`.
unfoldable pub step_buffers : ℕ → List CommonBuf → ℕ → SendTask
unfolding step_forward_offset
step_buffers tmp [] total = record { cbufs = []; total_remain = total }
step_buffers tmp (b ∷ l) total =
    let remain = get_remain b in
    let rest = step_buffers (sub64 tmp remain) l (sub64 total remain) in
    if tmp == 0
    then record { cbufs = b ∷ l; total_remain = total }
    else if leb remain tmp
    then rest
    else record { cbufs = (step_forward_offset tmp b).1 ∷ l; total_remain = sub64 total tmp }

-- `SendTask::stepForward`
abbrev pub step_task : ℕ → SendTask → Bool × SendTask
step_task size t = elim t.cbufs [
  | [] ↦ (false, t)
  | _ ∷ _ ↦ (true, step_buffers size t.cbufs t.total_remain)
]

-- The constructor of IovecContainer for a SendTask: the slots, and `remain`.
abbrev pub send_slot : CommonBuf → Slot
send_slot b = record { base_name = b.name; base_offset = b.offset; len = get_remain b }

unfoldable pub send_slots : List CommonBuf → List Slot × ℕ
send_slots [] = ([], 0)
send_slots (b ∷ l) = let rest = send_slots l in (send_slot b ∷ rest.0, add64 (get_remain b) rest.1)

-- The bytes of the slots, in order.
unfoldable pub slot_bytes : List Slot → List Place
slot_bytes [] = []
slot_bytes (v ∷ l) = run v.base_name v.base_offset v.len ++ slot_bytes l

-- What `run` has done: whether the task is done (and else the connection waits until it is writable),
-- what is on the socket, and the task.
pub record Sent : Type 0 where
  pub ok : Bool
  pub stream : List Place
  pub task : SendTask

abbrev pub after : List Place → Sent → Sent
after l r = record r { stream = l ++ r.stream }

-- `SendTask::run`. An entry of the list is how many bytes the socket has room for; `writev` takes
-- these, or all that there are. 0 is an error, or a socket that would block.
unfoldable pub run_send : List ℕ → SendTask → Sent
unfolding step_buffers send_slots slot_bytes
run_send [] t = record { ok = false; stream = []; task = t }
run_send (n ∷ ns) t =
    let vec = send_slots t.cbufs in
    let size = min n vec.1 in
    let sent = take size (slot_bytes vec.0) in
    let rest = run_send ns (step_task size t).1 in
    if length t.cbufs == 0
    then record { ok = false; stream = []; task = t }
    else if size == 0
    then record { ok = false; stream = []; task = t }
    else if vec.1 == size
    then record { ok = true; stream = sent; task = t }
    else after sent rest

-- `SendfileTask`, in bytes.
pub record SendfileTask : Type 0 where
  pub offset : ℕ
  pub remain : ℕ

abbrev pub new_sendfile : ℕ → ℕ → SendfileTask
new_sendfile lba len = record { offset = lba2offset lba; remain = lba2offset len }

pub record FileSent : Type 0 where
  pub ok : Bool
  pub stream : List Place
  pub task : SendfileTask

-- The loop over the handles. `none` is an error of `sendfile64`, `some n` room for n bytes.
unfoldable pub send_handles : List (Option ℕ) → List LowHandle → SendfileTask → FileSent
send_handles rs [] t = record { ok = true; stream = []; task = t }
send_handles [] (h ∷ l) t = record { ok = false; stream = []; task = t }
send_handles (none ∷ rs) (h ∷ l) t = record { ok = false; stream = []; task = t }
send_handles (some n ∷ rs) (h ∷ l) t =
    let size = min n h.length in
    let t' : SendfileTask = record { offset = add64 t.offset size; remain = sub64 t.remain size } in
    let sent = run h.path h.offset size in
    let rest = send_handles rs l t' in
    if h.length == size
    then record rest { stream = sent ++ rest.stream }
    else record { ok = false; stream = sent; task = t' }

-- `SendfileTask::run`. The handles are those of one range, so the outer loop has one round.
unfoldable pub run_sendfile : List PhysicalVolume → List (Option ℕ) → SendfileTask → FileSent
unfolding send_handles
run_sendfile volumes rs t =
    if t.remain == 0
    then record { ok = false; stream = []; task = t }
    else send_handles rs (get_low_handles volumes t.offset t.remain) t
