-- ===== src/Buffers.antt =====
-- include/ioveccontainer.h and src/ioveccontainer.cpp: the buffers of fixed size that a connection
-- receives into, and the container of them that `readv` fills. A buffer is known by its name, which
-- stands for its address.
pub mod Space
pub mod Reading
pub mod Turning
pub mod Start
use sstoraged.Common.{
  ℕ, zero, suc, ◌+◌, ◌*◌, max, ◌/◌, Bool, true, false, not, ◌&&◌, ltb, ◌==◌, if◌then◌else◌, Option,
  none, some, List, [], ◌∷◌, ◌++◌, length, get_elem?, take, drop, add64, sub64,
}

-- `CommonBuf`
pub record CommonBuf : Type 0 where
  pub name : ℕ
  pub size : ℕ
  pub offset : ℕ
  pub tail : ℕ

abbrev pub common_buf_size : ℕ
common_buf_size = 131072

abbrev pub new_common_buf : ℕ → CommonBuf
new_common_buf name = record { name = name; size = common_buf_size; offset = 0; tail = 0 }

abbrev pub get_remain : CommonBuf → ℕ
get_remain b = sub64 b.tail b.offset

abbrev pub get_capacity : CommonBuf → ℕ
get_capacity b = sub64 b.size b.tail

abbrev pub at_end : CommonBuf → Bool
at_end b = b.offset == b.size

-- `isEdge`, for a pointer to `offset` of the buffer.
abbrev pub is_edge : CommonBuf → ℕ → ℕ → Bool
is_edge b offset challenge = ltb (sub64 b.size offset) challenge

unfoldable pub step_forward_tail : ℕ → CommonBuf → Bool × CommonBuf
step_forward_tail step b =
    if ltb b.size (add64 b.tail step)
    then (false, b)
    else (true, record b { tail = add64 b.tail step })

unfoldable pub step_backward_tail : ℕ → CommonBuf → Bool × CommonBuf
step_backward_tail step b =
    if ltb (get_remain b) step then (false, b) else (true, record b { tail = sub64 b.tail step })

unfoldable pub step_forward_offset : ℕ → CommonBuf → Bool × CommonBuf
step_forward_offset step b =
    if ltb (get_remain b) step
    then (false, b)
    else (true, record b { offset = add64 b.offset step })

-- An `iovec`: the buffer and the offset in it that `iov_base` points to, and `iov_len`.
pub record Slot : Type 0 where
  pub base_name : ℕ
  pub base_offset : ℕ
  pub len : ℕ

-- `IovecContainer`; `fresh` is the name that the next new buffer gets.
pub record IovecContainer : Type 0 where
  pub vec : List Slot
  pub count : ℕ
  pub cbufs : List CommonBuf
  pub remain : ℕ
  pub overflow : ℕ
  pub fresh : ℕ

-- The free space of a buffer.
abbrev pub slot_of : CommonBuf → Slot
slot_of b = record { base_name = b.name; base_offset = b.tail; len = get_capacity b }

-- The loop of `IovecContainer::stepForwardTail`: what is left of `size`, and the buffers.
unfoldable pub step_tails : ℕ → List CommonBuf → ℕ × List CommonBuf
unfolding step_forward_tail
step_tails size [] = (size, [])
step_tails size (b ∷ l) =
    let capacity = get_capacity b in
    let rest = step_tails (sub64 size capacity) l in
    if size == 0
    then (size, b ∷ l)
    else if ltb capacity size
    then (rest.0, (step_forward_tail capacity b).1 ∷ rest.1)
    else (0, (step_forward_tail size b).1 ∷ l)

-- `IovecContainer::stepForwardOffset`, on the buffers: the buffer found, what is left of `size`,
-- what was taken off `remain`, and the buffers; `none` where every buffer is at its end. In the
-- branch of a buffer with enough, `size` is 0 already when `remain` is decremented by it.
pub record Stepped : Type 0 where
  pub found : CommonBuf
  pub left : ℕ
  pub taken : ℕ
  pub cbufs : List CommonBuf

abbrev pub behind : CommonBuf → Option Stepped → Option Stepped
behind b none = none
behind b (some s) = some (record s { cbufs = b ∷ s.cbufs })

unfoldable pub step_offsets : ℕ → List CommonBuf → Option Stepped
unfolding step_forward_offset
step_offsets size [] = none
step_offsets size (b ∷ l) =
    let capacity = get_remain b in
    let rest = step_offsets size l in
    let all = (step_forward_offset capacity b).1 in
    let part = (step_forward_offset size b).1 in
    if at_end b
    then behind b rest
    else if ltb capacity size
    then some
        (record { found = all; left = sub64 size capacity; taken = capacity; cbufs = all ∷ l })
    else some (record { found = part; left = 0; taken = 0; cbufs = part ∷ l })

-- memmove of `n` entries, from the second to the first.
abbrev pub move : ℕ → List Slot → List Slot
move n [] = []
move n (v ∷ l) = take n l ++ drop n (v ∷ l)

abbrev pub set_last : Slot → List Slot → List Slot
set_last s [] = []
set_last s (v ∷ []) = s ∷ []
set_last s (v ∷ w ∷ l) = v ∷ set_last s (w ∷ l)

abbrev pub set_first : Slot → List Slot → List Slot
set_first s [] = []
set_first s (v ∷ l) = s ∷ l

unfoldable pub rotate : ℕ → IovecContainer → IovecContainer
rotate index c =
    let b = new_common_buf c.fresh in
    record c {
      vec = set_last (slot_of b) (move (sub64 (sub64 c.count index) 1) c.vec);
      cbufs = c.cbufs ++ b ∷ [];
      remain = add64 c.remain b.size;
      fresh = suc c.fresh;
    }

-- The first loop of `update`, over the buffers that are read to their end; `fuel` is the number of
-- the buffers there are.
unfoldable pub drop_ended : ℕ → ℕ → IovecContainer → IovecContainer
unfolding rotate
drop_ended zero index c = c
drop_ended (suc fuel) index c = elim c.cbufs [
  | [] ↦ c
  | b ∷ l ↦
      let popped : IovecContainer = record c { cbufs = l } in
      let next : IovecContainer = elim c.overflow [
        | zero ↦ rotate index popped
        | suc left ↦ record popped { overflow = left }
      ] in
      let rest = drop_ended fuel (suc index) next in if at_end b then rest else c
]

-- The loop over the full buffers, from the one after those of `overflow`.
unfoldable pub rotate_full : List CommonBuf → ℕ → IovecContainer → IovecContainer
unfolding rotate
rotate_full [] index c = c
rotate_full (b ∷ l) index c =
    let next = rotate index c in
    let rest = rotate_full l (suc index) (record next { overflow = suc c.overflow }) in
    if get_capacity b == 0 then rest else c

-- `inRange` of the first slot.
abbrev pub first_in : CommonBuf → List Slot → Bool
first_in b [] = false
first_in b (v ∷ l) = v.base_name == b.name && not (ltb b.size v.base_offset)

abbrev pub refresh : Option CommonBuf → IovecContainer → Option IovecContainer
refresh none c = none
refresh (some b) c = some (record c { vec = set_first (slot_of b) c.vec })

abbrev pub turn : List CommonBuf → IovecContainer → IovecContainer
turn [] c = c
turn (b ∷ l) c = let full = rotate_full (b ∷ l) 0 c in if first_in b c.vec then full else c

-- `update`; `none` where it reads past the last buffer.
unfoldable pub update : IovecContainer → Option IovecContainer
unfolding drop_ended rotate_full
update c =
    let dropped = drop_ended (length c.cbufs) 0 c in
    let turned = turn (drop dropped.overflow dropped.cbufs) dropped in
    refresh (get_elem? turned.cbufs turned.overflow) turned

-- The buffers that `reserve` makes, from the name `fresh` on.
abbrev pub new_bufs : ℕ → ℕ → List CommonBuf
new_bufs zero fresh = []
new_bufs (suc n) fresh = new_common_buf fresh ∷ new_bufs n (suc fresh)

abbrev pub slots : List CommonBuf → List Slot
slots [] = []
slots (b ∷ l) = slot_of b ∷ slots l

unfoldable pub reserve : ℕ → IovecContainer → Bool × IovecContainer
reserve total c =
    let n = max (total / common_buf_size + 1) 2 in
    let bufs = new_bufs n c.fresh in
    if c.count == 0
    then (
      true,
      record c {
        vec = slots bufs;
        count = n;
        cbufs = c.cbufs ++ bufs;
        remain = add64 c.remain (n * common_buf_size);
        fresh = c.fresh + n;
      },
    )
    else (not (ltb c.remain total), c)
