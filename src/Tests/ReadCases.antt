-- ===== src/Tests/ReadCases.antt =====
-- Reads of a volume of 1000 blocks, with one segment in the write cache of LUN 0.
use sstoraged.Common.{
  ◌+◌, ◌%◌, ◌^◌, ◌≡◌, refl, true, false, none, some, List, [], ◌∷◌, ◌++◌, if◌then◌else◌, ◌==◌, inl,
  arith,
}
use sstoraged.Cache.{WriteSegment, WriteCache, new_segment}
use sstoraged.Cache.Linear.{linear}
use sstoraged.Session.{Session, CommandReq, DataIn, Task, task_cork, task_uncork}
use sstoraged.Read.{send_cache, miss_loop, handle_read}
use sstoraged.Read.Hits.{blocks, view}
use sstoraged.Read.Tiling.{send_cache-view}
use sstoraged.Read.Frames.{FramedAs, miss_loop-Framed}
use sstoraged.Read.Whole.{Accepted, handle_read-view}

abbrev written : WriteSegment
written = new_segment 0 10 8

abbrev cached : WriteCache
cached = record { fifo = 0 ∷ []; index = written ∷ []; next_ptr = 1 }

abbrev session : Session
session = record {
  lun_size = λ lun. if lun == 0 then some 1000 else none;
  mrds = 8192;
  max_burst_length = 262144;
  first_burst_length = 65536;
  immediate_data = false;
  initial_r2t = true;
  expcmdsn = 5;
  maxcmdsn = 9;
  statsn = 3;
  wcaches = cached ∷ [];
  notified = [];
  recvinfo = [];
  sendtask = [];
}

abbrev request : CommandReq
request = record {
  op_code = 1;
  flag_read = true;
  flag_write = false;
  final = true;
  immediate_cmd = false;
  itt = 7;
  lun = 0;
  dlength = 0;
  cdb_op_code = 0x28;
  protect = 0;
  dpo = false;
  lba = 8;
  transfer_length = 12;
}

abbrev accepted : Accepted request session 1000 cached
accepted = record {
  read_only = (refl, refl);
  cdb = (refl, refl, refl);
  final = refl;
  lun = refl;
  some_blocks = omega arith;
  in_volume = omega arith;
  cache = refl;
}

send_cache-view_example : blocks (send_cache (written ∷ []) 8 12).0 ≡ view (written ∷ []) 8 12
send_cache-view_example =
    send_cache-view (written ∷ []) 8 12 (omega arith) (omega arith)
      (
        omega arith,
        record { some_blocks = omega arith; short = omega arith; fits = omega arith },
        tt,
      )
      (omega arith, tt)

abbrev header : DataIn
header = record {
  itt = 7;
  dlength = 0;
  final = false;
  statsn = 3;
  expcmdsn = 5;
  maxcmdsn = 9;
  datasn = 0;
  offset = 0;
  datasn_gen = 1;
}

miss_loop-Framed_example : FramedAs 16 100 0 0 40 (miss_loop 40 8192 header 100 40)
miss_loop-Framed_example =
    miss_loop-Framed 8192 16 refl (omega arith) (omega arith) 40 100 0 0 40 header
      (record { place = refl; number = refl; counter = refl; not_final = refl }) (omega arith)
      (omega arith) (omega arith) (omega arith) (omega arith)

handle_read-view_example :
    (l : List Task) × (s' : Session) × (handle_read linear 12 request session ≡ some (true, s'))
    × (s'.sendtask ≡ session.sendtask ++ (task_cork ∷ (l ++ (task_uncork ∷ []))))
    × (blocks l ≡ view cached.index 8 12)
    × (s'.statsn ≡ (session.statsn + 1) % 2 ^ 32)
    × (s'.expcmdsn ≡ session.expcmdsn)
    × (s'.maxcmdsn ≡ session.maxcmdsn)
handle_read-view_example =
    handle_read-view linear 12 request session 1000 cached 16 accepted (tt, tt)
      (record { short = omega arith; fits = omega arith }, tt) refl (omega arith) (omega arith)
      (omega arith) (omega arith) (omega arith) (omega arith) (inl (omega arith))
