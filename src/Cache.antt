-- ===== src/Cache.antt =====
-- include/writecache.h and src/writecache.cpp: the write segments that are not on disk yet, in the
-- order of arrival and in the order of the LBA from which they answer reads.
-- A segment is a record with its address, `ptr`; the LBA index holds the segments and the FIFO their
-- addresses. LBAs and lengths are of 64 bits. The mutex is not modelled: every operation holds it.
pub mod Search
pub mod Serve
pub mod Merge
pub mod Store
pub mod Pending
pub mod Push
pub mod Linear
pub mod Fifo
use sstoraged.Common.{
  ℕ, ◌+◌, ◌-◌, ◌*◌, ◌%◌, ◌^◌, ◌≤◌, ◌<◌, ◌≡◌, min, Bool, true, false, ◌&&◌, ◌||◌, ltb, leb, ◌==◌,
  if◌then◌else◌, Option, none, some, List, [], ◌∷◌, ◌++◌, All, add64, sub64,
}

pub record WriteSegment : Type 0 where
  pub ptr : ℕ
  pub lba : ℕ
  pub transfer_length : ℕ
  pub rlba : ℕ
  pub rlength : ℕ
  pub copy : Bool
  pub cbufs : List ℕ
  pub ds_offset : ℕ
  pub stored : ℕ

-- `WriteSegment(lba, length)`
abbrev pub new_segment : ℕ → ℕ → ℕ → WriteSegment
new_segment p lba length = record {
  ptr = p;
  lba = lba;
  transfer_length = length;
  rlba = lba;
  rlength = length;
  copy = false;
  cbufs = [];
  ds_offset = 0;
  stored = 0;
}

-- `WriteSegment(ptr)`
abbrev pub copy_segment : ℕ → WriteSegment → WriteSegment
copy_segment p s = record {
  ptr = p;
  lba = s.lba;
  transfer_length = s.transfer_length;
  rlba = s.rlba;
  rlength = s.rlength;
  copy = true;
  cbufs = s.cbufs;
  ds_offset = 0;
  stored = s.stored;
}

-- SCSI::LBA2OFFSET and SCSI::OFFSET2LBA (include/common.h)
abbrev pub lba2offset : ℕ → ℕ
lba2offset lba = lba * 2 ^ 9 % 2 ^ 64

-- `set1stDataSegment` and `addDataSegment`. A segment that is refused keeps its larger `stored`.
unfoldable pub set_1st_data_segment : WriteSegment → ℕ → ℕ → ℕ → Bool × WriteSegment
set_1st_data_segment s cbuf size offset = elim s.cbufs [
  | _ ∷ _ ↦ (false, s)
  | [] ↦
      let stored = add64 s.stored size in
      if ltb (lba2offset s.transfer_length) stored
      then (false, record s { stored = stored })
      else (true, record s { stored = stored; cbufs = cbuf ∷ []; ds_offset = offset })
]

unfoldable pub add_data_segment : WriteSegment → ℕ → ℕ → Bool × WriteSegment
add_data_segment s cbuf size = elim s.cbufs [
  | [] ↦ (false, s)
  | _ ∷ _ ↦
      let stored = add64 s.stored size in
      if ltb (lba2offset s.transfer_length) stored
      then (false, record s { stored = stored })
      else (true, record s { stored = stored; cbufs = s.cbufs ++ (cbuf ∷ []) })
]

-- A position in the LBA index: what stands before it, nearest first, and what stands from it on.
abbrev pub join : List WriteSegment → List WriteSegment → List WriteSegment
join [] cur = cur
join (s ∷ r) cur = join r (s ∷ cur)

-- The keys are in order.
abbrev pub Sorted : List WriteSegment → Type 0
Sorted [] = Unit
Sorted (s ∷ l) = All (λ t. s.rlba ≤ t.rlba) l × Sorted l

-- The ordered index of the boost container, ordered by `rlba`: what its documentation says of an
-- index whose keys are in order, and that an insertion adds one element and touches no other.
pub record LbaIndex : Type 0 where
  pub lower_bound : ℕ → List WriteSegment → List WriteSegment × List WriteSegment
  pub insert : WriteSegment → List WriteSegment → List WriteSegment
  pub lower_bound-join :
      (k : ℕ) (l : List WriteSegment) → join (lower_bound k l).0 (lower_bound k l).1 ≡ l
  pub lower_bound-from :
      (k : ℕ) (l : List WriteSegment) → Sorted l → All (λ t. k ≤ t.rlba) (lower_bound k l).1
  pub lower_bound-before :
      (k : ℕ) (l : List WriteSegment) → Sorted l → All (λ t. t.rlba < k) (lower_bound k l).0
  pub insert-append :
      (s : WriteSegment) (l : List WriteSegment)
      → (pre : List WriteSegment) × (post : List WriteSegment) × (l ≡ pre ++ post)
        × (insert s l ≡ pre ++ (s ∷ post))
  pub insert-Sorted : (s : WriteSegment) (l : List WriteSegment) → Sorted l → Sorted (insert s l)

-- The loops of `_search`. The first walks back from the lower bound (`cur`) and moves `itr`.
again : ℕ → List WriteSegment → Bool
again lba [] = true
again lba (s ∷ _) = ltb lba s.rlba || s.rlength == 0

scan_back : ℕ → List WriteSegment → List WriteSegment → List WriteSegment → List WriteSegment
unfolding again
scan_back lba [] cur itr = itr
scan_back lba (s ∷ r) cur itr =
    let rest =
      scan_back lba r (s ∷ cur) (
        if s.rlength == 0
        then itr
        else if ltb lba (add64 s.rlba s.rlength)
        then s ∷ cur
        else itr) in
    if again lba cur then rest else itr

fill_hits : ℕ → ℕ → List WriteSegment → List WriteSegment
fill_hits lba length [] = []
fill_hits lba length (s ∷ l) =
    let rest = fill_hits lba length l in
    if leb (add64 lba length) s.rlba then [] else if ltb 0 s.rlength then s ∷ rest else rest

search_from : ℕ → ℕ → List WriteSegment × List WriteSegment → List WriteSegment
unfolding scan_back fill_hits
search_from lba length (r, cur) = fill_hits lba length (scan_back lba r cur cur)

-- `_search`
unfoldable pub search : LbaIndex → List WriteSegment → ℕ → ℕ → List WriteSegment
unfolding search_from
search ix l lba length = elim l [
  | [] ↦ []
  | s ∷ t ↦ search_from lba length (ix.lower_bound lba (s ∷ t))
]

-- The container. `next_ptr` is the address that the allocator hands out next.
pub record WriteCache : Type 0 where
  pub fifo : List ℕ
  pub index : List WriteSegment
  pub next_ptr : ℕ

-- The segment at an address, and a write to it.
abbrev pub find : ℕ → List WriteSegment → Option WriteSegment
find p [] = none
find p (s ∷ l) = if s.ptr == p then some s else find p l

abbrev pub replace : ℕ → WriteSegment → List WriteSegment → List WriteSegment
replace p v [] = []
replace p v (s ∷ l) = (if s.ptr == p then v else s) ∷ replace p v l

abbrev pub erase : ℕ → List WriteSegment → List WriteSegment
erase p [] = []
erase p (s ∷ l) = let rest = erase p l in if s.ptr == p then rest else s ∷ rest

-- `wq.push_back`
abbrev pub push_back : LbaIndex → WriteSegment → WriteCache → WriteCache
push_back ix s c = record c { fifo = c.fifo ++ (s.ptr ∷ []); index = ix.insert s c.index }

-- The body of push's loop, at a hit that holds `s`, for a write from `whead` to `wtail`: the hit
-- afterwards, and the copy that is pushed before it changes. The subtractions do not wrap in the
-- branches where they stand.
unfoldable pub cut : ℕ → ℕ → ℕ → WriteSegment → WriteSegment × Option WriteSegment
cut p whead wtail s =
    let hhead = s.rlba in
    let htail = add64 s.rlba s.rlength in
    if leb whead hhead && leb htail wtail
    then (record s { rlength = 0 }, none)
    else if ltb hhead whead && ltb wtail htail
    then (
      record s { rlength = s.rlength - min (htail - whead) s.rlength },
      some (record (copy_segment p s) {
        rlba = sub64 (add64 s.lba wtail) hhead;
        rlength = htail - wtail;
      }),
    )
    else if ltb hhead whead && (ltb whead htail && leb htail wtail)
    then (record s { rlength = s.rlength - min (htail - whead) s.rlength }, none)
    else if leb whead hhead && (ltb hhead wtail && ltb wtail htail)
    then (
      record s {
        rlba = add64 s.rlba (min (wtail - hhead) s.rlength);
        rlength = s.rlength - min (wtail - hhead) s.rlength;
      },
      none,
    )
    else (s, none)

-- The effect of a cut on the container.
abbrev pub apply_cut : LbaIndex → ℕ → WriteSegment × Option WriteSegment → WriteCache → WriteCache
apply_cut ix p (s, none) c = record c { index = replace p s c.index }
apply_cut ix p (s, some cs) c =
    let c' = push_back ix cs c in
    record c' { index = replace p s c'.index; next_ptr = c.next_ptr + 1 }

-- One round of the loop, at the hit with the address `p`.
unfoldable pub merge : LbaIndex → ℕ → ℕ → ℕ → WriteCache → WriteCache
merge ix whead wtail p c = elim (find p c.index) [
  | none ↦ c
  | some s ↦ apply_cut ix p (cut c.next_ptr whead wtail s) c
]

pub merge_all : LbaIndex → ℕ → ℕ → List WriteSegment → WriteCache → WriteCache
merge_all ix whead wtail [] c = c
merge_all ix whead wtail (h ∷ hits) c = merge_all ix whead wtail hits (merge ix whead wtail h.ptr c)

-- `push`
unfoldable pub push : LbaIndex → WriteSegment → WriteCache → WriteCache
unfolding merge_all
push ix ws c = push_back ix ws (
    merge_all ix ws.lba (add64 ws.lba ws.transfer_length)
      (search ix c.index ws.lba ws.transfer_length) c)

-- The loop of `_front`: copies are popped. `none` is `front()` of an empty container.
unfoldable pub is_copy : ℕ → List WriteSegment → Bool
is_copy p l = elim (find p l) [ none ↦ false | some s ↦ s.copy ]

unfoldable pub skip_copies : List ℕ → List WriteSegment → Option (ℕ × List ℕ × List WriteSegment)
unfolding is_copy
skip_copies [] l = none
skip_copies (p ∷ ps) l =
    let rest = skip_copies ps (erase p l) in if is_copy p l then rest else some (p, p ∷ ps, l)

-- `_front`: the address returned, none for a null pointer, and the container left.
unfoldable pub front : WriteCache → Option (Option ℕ × WriteCache)
unfolding skip_copies
front c = elim c.fifo [
  | [] ↦ some (none, c)
  | _ ∷ _ ↦ elim (skip_copies c.fifo c.index) [
    | none ↦ none
    | some (p, ps, l) ↦ some (some p, record c { fifo = ps; index = l })
  ]
]

-- `pop`
unfoldable pub pop : WriteCache → WriteCache
pop c = elim c.fifo [ [] ↦ c | p ∷ ps ↦ record c { fifo = ps; index = erase p c.index } ]

-- `getNext`: what it returns, the pointer left in its argument, and the container.
unfoldable pub after_ptr : ℕ → List ℕ → List ℕ
after_ptr p [] = []
after_ptr p (q ∷ qs) = if q == p then qs else after_ptr p qs

unfoldable pub first_original : List ℕ → List WriteSegment → Option ℕ
unfolding is_copy
first_original [] l = none
first_original (p ∷ ps) l = if is_copy p l then first_original ps l else some p

unfoldable pub next_or_stay : Option ℕ → WriteCache → Option ℕ → Bool × Option ℕ × WriteCache
next_or_stay ws c none = (false, ws, c)
next_or_stay ws c (some p) = (true, some p, c)

unfoldable pub get_next : Option ℕ → WriteCache → Option (Bool × Option ℕ × WriteCache)
unfolding front after_ptr first_original next_or_stay
get_next ws c =
    let from_front : Option (Bool × Option ℕ × WriteCache) = elim (front c) [
      | none ↦ none
      | some (p, c') ↦ some (true, p, c')
    ] in
    elim c.fifo [
      | [] ↦ some (false, ws, c)
      | _ ∷ _ ↦ elim ws [
        | none ↦ from_front
        | some p ↦ elim (find p c.index) [
          | none ↦ from_front
          | some _ ↦ some (next_or_stay (some p) c (first_original (after_ptr p c.fifo) c.index))
        ]
      ]
    ]
