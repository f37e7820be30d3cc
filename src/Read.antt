-- ===== src/Read.antt =====
-- src/scsi/read.cpp: READ(10), served from the write cache and from disk, cut into Data-In PDUs of
-- MaxRecvDataSegmentLength. LBAs are uint64_t, block counts uint32_t.
pub mod Hits
pub mod Tiling
pub mod Frames
pub mod Serve
pub mod Whole
use sstoraged.Common.{
  ℕ, zero, suc, ◌+◌, ◌*◌, ◌/◌, ◌%◌, ◌^◌, Bool, true, false, not, ◌&&◌, ◌||◌, ltb, leb, ◌==◌,
  if◌then◌else◌, Option, none, some, List, [], ◌∷◌, ◌++◌, get_elem?, select, add32, sub32, add64,
  sub64,
}
use sstoraged.Cache.{WriteSegment, WriteCache, LbaIndex, search, lba2offset}
use sstoraged.Counter.{next_sn}
use sstoraged.Session.{
  Session, CommandReq, DataIn, Task, Pdu, pdu_data_in, task_send, task_sendfile, task_send_cache,
  task_cork, task_uncork, push_task, advance_statsn,
}

-- `OFFSET2LBA`
abbrev pub offset2lba : ℕ → ℕ
offset2lba offset = offset / 2 ^ 9

-- `Read10Parser::valid`; READ_10 is 0x28.
abbrev pub read10_valid : CommandReq → Bool
read10_valid req = req.cdb_op_code == 0x28 && (req.protect == 0 && not req.dpo)

-- `getHitSegments`
abbrev pub is_hit : ℕ → ℕ → WriteSegment → Bool
is_hit lba length s =
    (leb lba s.rlba && leb s.rlba (add64 lba length))
    || ((ltb s.rlba lba && ltb (add64 lba length) (add64 s.rlba s.rlength))
        || (ltb s.rlba lba && ltb lba (add64 s.rlba s.rlength)))

unfoldable pub get_hit_segments : List WriteSegment → ℕ → ℕ → List WriteSegment
get_hit_segments cache lba length = select (is_hit lba length) cache

-- The loop of `sendCache`: the tasks it pushes, and what it leaves in `rlba`. The three cases of a
-- segment are `hit_length`, the last segment, and a segment in the middle.
hit_length : ℕ → ℕ → ℕ → ℕ → ℕ
hit_length clba clength rlba length =
    let tail = sub32 clength (sub64 rlba clba % 2 ^ 32) in
    if ltb (add64 rlba length) (add64 clba clength)
    then sub32 tail (sub64 (sub64 (add64 clba clength) rlba) length % 2 ^ 32)
    else tail

unfoldable pub send_cache : List WriteSegment → ℕ → ℕ → List Task × ℕ
unfolding hit_length
send_cache [] rlba length =
    if ltb 0 length then (task_sendfile rlba length ∷ [], add64 rlba length) else ([], rlba)
send_cache (s ∷ hits) rlba length =
    let clba = s.rlba in
    let clength = s.rlength % 2 ^ 32 in
    let h = hit_length clba clength rlba length in
    let miss = sub64 clba rlba % 2 ^ 32 in
    let first = send_cache hits (add64 rlba h) (sub32 length h) in
    let middle = send_cache hits (add64 clba clength) (sub32 length (add32 miss clength)) in
    if ltb 0 length
    then if leb clba rlba
      then (task_send_cache s rlba h ∷ first.0, first.1)
      else if leb (add64 rlba length) (add64 clba clength)
      then (
        task_sendfile rlba miss ∷ task_send_cache s clba (sub32 length miss) ∷ [],
        sub64 (add64 clba clength) miss,
      )
      else (task_sendfile rlba miss ∷ task_send_cache s clba clength ∷ middle.0, middle.1)
    else ([], rlba)

-- The head of both loops of `handle`: the length of the next PDU, what is left of
-- `transfer_length`, and the PDU's header.
pub record Chunk : Type 0 where
  pub length : ℕ
  pub left : ℕ
  pub reply : DataIn

unfoldable pub chunk : ℕ → ℕ → DataIn → Chunk
chunk byte_mrds left reply =
    let most = offset2lba byte_mrds in
    if ltb most left
    then record {
      length = most;
      left = left;
      reply = record reply { dlength = byte_mrds % 2 ^ 24 };
    }
    else record {
      length = left;
      left = 0;
      reply = record reply { final = true; dlength = lba2offset left % 2 ^ 24 };
    }

-- The update of the header at the end of a round.
abbrev pub next_reply : DataIn → ℕ → DataIn
next_reply reply length = record reply {
  datasn = reply.datasn_gen;
  datasn_gen = (next_sn reply.datasn_gen).1;
  offset = add32 reply.offset (lba2offset length % 2 ^ 32);
}

-- The tasks of a round, before those of the rounds that follow.
abbrev pub prepend : List Task → Option (List Task) → Option (List Task)
prepend l none = none
prepend l (some rest) = some (l ++ rest)

abbrev pub prepend_all : List Task → Option (Bool × List Task) → Option (Bool × List Task)
prepend_all l none = none
prepend_all l (some (ok, rest)) = some (ok, l ++ rest)

-- The loop of a cache miss: `none` when the fuel runs out.
unfoldable pub miss_loop : ℕ → ℕ → DataIn → ℕ → ℕ → Option (List Task)
miss_loop zero byte_mrds reply lba left = none
miss_loop (suc fuel) byte_mrds reply lba left =
    let c = chunk byte_mrds left reply in
    let rest =
      miss_loop fuel byte_mrds (next_reply c.reply c.length) (add64 lba c.length)
        (sub32 c.left c.length) in
    let here : List Task = task_send (pdu_data_in c.reply) ∷ task_sendfile lba c.length ∷ [] in
    if c.left == 0 then some here else prepend here rest

-- The loop of a cache hit: whether it succeeds, and the tasks it has pushed.
unfoldable pub hit_loop : ℕ → ℕ → List WriteSegment → DataIn → ℕ → ℕ → Option (Bool × List Task)
hit_loop zero byte_mrds cache reply lba left = none
hit_loop (suc fuel) byte_mrds cache reply lba left =
    let c = chunk byte_mrds left reply in
    let header = task_send (pdu_data_in c.reply) in
    let hits = get_hit_segments cache lba c.length in
    let sent = send_cache hits lba c.length in
    let rest =
      hit_loop fuel byte_mrds cache (next_reply c.reply c.length) sent.1 (sub32 c.left c.length) in
    elim hits [
      | [] ↦ some (false, header ∷ [])
      | _ ∷ _ ↦
          if c.left == 0 then some (true, header ∷ sent.0) else prepend_all (header ∷ sent.0) rest
    ]

-- The first header: DataSN 0, and a generator that has been called once.
abbrev pub first_reply : CommandReq → Session → DataIn
first_reply req s = record {
  itt = req.itt;
  dlength = 0;
  final = false;
  statsn = s.statsn;
  expcmdsn = s.expcmdsn;
  maxcmdsn = s.maxcmdsn;
  datasn = 0;
  offset = 0;
  datasn_gen = 1;
}

-- Which of the two loops runs.
unfoldable pub read_tasks : ℕ → ℕ → List WriteSegment → DataIn → ℕ → ℕ → Option (Bool × List Task)
unfolding miss_loop hit_loop
read_tasks fuel byte_mrds [] reply lba left = elim (miss_loop fuel byte_mrds reply lba left) [
  | none ↦ none
  | some l ↦ some (true, l)
]
read_tasks fuel byte_mrds (s ∷ cache) reply lba left =
    hit_loop fuel byte_mrds (s ∷ cache) reply lba left

abbrev pub push_all : List Task → Session → Session
push_all l s = record s { sendtask = s.sendtask ++ l }

-- `handle`: `none` when the fuel runs out, or when the LUN has no write cache.
unfoldable pub handle_read : LbaIndex → ℕ → CommandReq → Session → Option (Bool × Session)
unfolding read_tasks
handle_read ix fuel req s =
    if not req.flag_read || (req.flag_write || not (read10_valid req))
    then some (false, s)
    else if not req.final
    then some (false, s)
    else elim (s.lun_size req.lun) [
      | none ↦ some (false, s)
      | some total ↦
          if leb total req.lba
            || (req.transfer_length == 0 || ltb total (req.lba + req.transfer_length))
          then some (false, s)
          else elim (get_elem? s.wcaches req.lun) [
            | none ↦ none
            | some c ↦
                elim (read_tasks fuel s.mrds (search ix c.index req.lba req.transfer_length)
                  (first_reply req s) req.lba req.transfer_length) [
                    | none ↦ none
                    | some (true, l) ↦
                        some (
                          true,
                          push_all (task_cork ∷ (l ++ (task_uncork ∷ []))) (advance_statsn s),
                        )
                    | some (false, l) ↦ some (false, push_all (task_cork ∷ l) (advance_statsn s))
                  ]
          ]
    ]
