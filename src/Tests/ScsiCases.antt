-- ===== src/Tests/ScsiCases.antt =====
-- SCSI commands to an initiator with two LUNs of 1000 and 2000 blocks, as bytes.
use sstoraged.Common.{
  ℕ, ◌+◌, ◌-◌, ◌*◌, ◌%◌, ◌^◌, ◌≤◌, ◌≡◌, refl, true, false, none, some, min, List, [], ◌∷◌, ◌++◌,
  get_elem?, if◌then◌else◌, ◌==◌, inl, inr, arith,
}
use sstoraged.Limitter.{make_limitter, get_cmd_queue}
use sstoraged.Cache.{WriteSegment, WriteCache, new_segment}
use sstoraged.Cache.Linear.{linear}
use sstoraged.Session.{
  Session, CommandReq, DataReply, Token, Task, task_send, task_cork, task_uncork, pdu_data_reply,
  push_task, advance_statsn,
}
use sstoraged.Read.{handle_read}
use sstoraged.Read.Hits.{blocks, view}
use sstoraged.Transfer.{handle_write}
use sstoraged.Scsi.{CommandHeader, to_req, lun_bytes, lun_get, get_lun}
use sstoraged.Scsi.Parts.{fitting, with_bytes}
use sstoraged.Scsi.Capacity.{handle_read_capacity}
use sstoraged.Scsi.Luns.{list_length, add_luns}
use sstoraged.Scsi.Luns.Listed.{entries, add_luns-listed, get_lun-listed}
use sstoraged.Scsi.ModeSense.{ModeData, mode_data, caching}
use sstoraged.Scsi.ModeSense.Whole.{Laid, mode_data-Laid}
use sstoraged.Commands.{Surroundings, find_handler, handle_command, inquiry}
use sstoraged.Commands.Counting.{Entered}
use sstoraged.Commands.Answers.{Answered}
use sstoraged.Commands.Told.{lba_told, unit_told, handle_read_capacity-told}
use sstoraged.Commands.Whole.{handle_command-Answered, handle_command_null}
use sstoraged.Commands.Reading.{lba_named, blocks_named, handle_command-view}
use sstoraged.Tests.LimitCases.{spread}

abbrev written : WriteSegment
written = new_segment 0 10 8

abbrev cached : WriteCache
cached = record { fifo = 0 ∷ []; index = written ∷ []; next_ptr = 1 }

abbrev session : Session
session = record {
  lun_size = λ lun. get_lun lun (1000 ∷ (2000 ∷ []));
  mrds = 8192;
  max_burst_length = 262144;
  first_burst_length = 65536;
  immediate_data = false;
  initial_r2t = true;
  expcmdsn = 5;
  maxcmdsn = 9;
  statsn = 3;
  wcaches = cached ∷ [];
  notified = [];
  recvinfo = [];
  sendtask = [];
}

abbrev token : Token
token = record {
  bhs_offset = 0;
  hlength = 0;
  dlength = 0;
  first = record { name = 0; size = 131072 };
  others = [];
}

abbrev around : Surroundings
around = record { index = linear; name = 0; fresh = λ i. 0; stack = λ i. 0; luns = 2 }

-- A final command that reads.
abbrev command : List ℕ → CommandHeader
command scb = record {
  opcode = 0x01;
  flags = 0xc0;
  dlength = 0;
  lun = lun_bytes 0;
  itt = 7;
  expdatalen = 255;
  scb = scb;
}

abbrev inquiry_command : CommandHeader
inquiry_command = command (0x12 ∷ (0 ∷ (0 ∷ (0 ∷ (255 ∷ [])))))

handle_command-Answered_example :
    (s1 : Session) × (Entered (to_req inquiry_command) session s1
      × Answered (to_req inquiry_command) s1 (
          handle_command 144
            (make_limitter 1000 2420)
            1500
            []
            around
            inquiry_command
            token
            session))
unfolding to_req lun_bytes find_handler
handle_command-Answered_example =
    handle_command-Answered 1000 2420 1500 [] around inquiry_command token session inquiry spread
      (omega arith) (omega arith) refl refl tt

abbrev mode_command : CommandHeader
mode_command = command (0x1a ∷ (0 ∷ (0x3f ∷ (0 ∷ (0 ∷ [])))))

handle_command_null_example :
    handle_command 144 (make_limitter 1000 2420) 1500 [] around mode_command token session ≡ none
unfolding to_req lun_bytes
handle_command_null_example =
    handle_command_null 1000 2420 1500 [] around mode_command token session spread (omega arith)
      (omega arith) refl refl (inr (refl, (refl, (refl, (1000, refl)))))

mode_data-Laid_example :
    (d : ModeData) × ((mode_data 255 false 0x08 1000 (λ i. 0) ≡ some d)
      × Laid 255 false 1000 (caching ∷ []) (λ i. 0) d)
mode_data-Laid_example =
    mode_data-Laid 255 false 0x08 1000 (caching ∷ []) (λ i. 0) (omega arith) refl

add_luns-listed_example :
    (list_length (add_luns 16 2 0 (λ i. 0)) ≡ 8 * 0 + 8 * 2)
    × ((i : ℕ)
        → 4 ≤ i
        → add_luns 16 2 0 (λ i. 0) i
          ≡ with_bytes (8 * 0 + 8) (fitting 16 (8 * 0 + 8) (entries 0 2)) (λ i. 0) i)
add_luns-listed_example = add_luns-listed 16 2 0 (λ i. 0) refl (omega arith)

get_lun-listed_example :
    get_lun (lun_get (lun_bytes 1)) (1000 ∷ (2000 ∷ []))
    ≡ (if 1 == 0 then get_elem? (1000 ∷ (2000 ∷ [])) 0 else none)
get_lun-listed_example = get_lun-listed (1000 ∷ (2000 ∷ [])) 1 (omega arith) (omega arith)

abbrev capacity_command : CommandHeader
capacity_command = command (0x25 ∷ [])

abbrev beyond : CommandReq
beyond = record {
  op_code = 1;
  flag_read = true;
  flag_write = false;
  final = true;
  immediate_cmd = false;
  itt = 8;
  lun = 0;
  dlength = 0;
  cdb_op_code = 0x28;
  protect = 0;
  dpo = false;
  lba = 996;
  transfer_length = 8;
}

handle_read_capacity-told_example :
    (r : DataReply) × (let s' = push_task (task_send (pdu_data_reply r)) (advance_statsn session) in
      (handle_read_capacity 0 (λ i. 0) (λ i. 0) capacity_command session ≡ some (true, s'))
      × ((lba_told r.area ≡ min (1000 - 1) (2 ^ 32 - 1))
          × ((unit_told r.area ≡ 512)
              × ((handle_read linear 8 beyond s' ≡ some (false, s'))
                  × (handle_write linear beyond token s' ≡ (false, s'))))))
unfolding to_req lun_bytes
handle_read_capacity-told_example =
    handle_read_capacity-told 0 (λ i. 0) (λ i. 0) capacity_command session 1000 linear 8 beyond
      token refl refl refl (omega arith) (omega arith) refl (omega arith)

-- READ(10) of 12 blocks from block 8 on.
abbrev read_command : CommandHeader
read_command = command (0x28 ∷ (0 ∷ (0 ∷ (0 ∷ (0 ∷ (8 ∷ (0 ∷ (0 ∷ (12 ∷ [])))))))))

handle_command-view_example :
    (l : List Task) × (s' : Session) × (handle_command 144
        (make_limitter 1000 2420)
        1500
        []
        around
        read_command
        token
        session
      ≡ some (true, s'))
    × (s'.sendtask ≡ session.sendtask ++ (task_cork ∷ (l ++ (task_uncork ∷ []))))
    × (blocks l ≡ view cached.index (lba_named 0 0 0 8) (blocks_named 0 12))
    × (s'.statsn ≡ (session.statsn + 1) % 2 ^ 32)
    × (s'.expcmdsn ≡ (
        if (to_req read_command).immediate_cmd
        then session.expcmdsn
        else (session.expcmdsn + 1) % 2 ^ 32))
    × ((to_req read_command).immediate_cmd ≡ false → 1 ≤ get_cmd_queue s'.expcmdsn s'.maxcmdsn)
unfolding to_req lun_bytes
handle_command-view_example =
    handle_command-view 1000 2420 1500 [] around read_command token session 1000 cached 16 0 0 0 0 8
      0 0 12 [] refl spread (omega arith) (omega arith) (omega arith) refl
      (record {
        read_only = (refl, refl);
        cdb = (refl, refl, refl);
        final = refl;
        lun = refl;
        some_blocks = omega arith;
        in_volume = omega arith;
        cache = refl;
      })
      (tt, tt) (record { short = omega arith; fits = omega arith }, tt) refl (omega arith)
      (omega arith) (omega arith) (inl (omega arith))
