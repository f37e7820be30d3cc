-- ===== src/Tests/TransferCases.antt =====
-- A WRITE of 4 blocks, whose bytes come in two Data-Out PDUs.
use sstoraged.Common.{
  ℕ, ◌*◌, ◌≤◌, ◌<◌, ◌≡◌, ◌^◌, refl, true, false, none, some, List, [], ◌∷◌, if◌then◌else◌, ◌==◌,
  arith,
}
use sstoraged.Cache.{WriteCache}
use sstoraged.Cache.Linear.{linear}
use sstoraged.Session.{Session, CommandReq, DataOutInfo, Token, recv_get}
use sstoraged.Transfer.{DataOutReq, handle_write}
use sstoraged.Transfer.Sequence.{Parts, Part, Completed, run}
use sstoraged.Transfer.Complete.{run-Completed}
use sstoraged.Transfer.Open.{Accepted, Opened, write-Completed}

abbrev empty_cache : WriteCache
empty_cache = record { fifo = []; index = []; next_ptr = 0 }

abbrev info : DataOutInfo
info = record { lba = 20; total = 2048; remain = 2048; r2tsn_gen = 1 }

abbrev session : Session
session = record {
  lun_size = λ lun. if lun == 0 then some 1000 else none;
  mrds = 1024;
  max_burst_length = 262144;
  first_burst_length = 65536;
  immediate_data = false;
  initial_r2t = true;
  expcmdsn = 5;
  maxcmdsn = 9;
  statsn = 3;
  wcaches = empty_cache ∷ [];
  notified = [];
  recvinfo = [];
  sendtask = [];
}

abbrev waiting : Session
waiting = record session { recvinfo = (7, info) ∷ [] }

abbrev request : CommandReq
request = record {
  op_code = 1;
  flag_read = false;
  flag_write = true;
  final = true;
  immediate_cmd = false;
  itt = 7;
  lun = 0;
  dlength = 0;
  cdb_op_code = 0x2a;
  protect = 0;
  dpo = false;
  lba = 20;
  transfer_length = 4;
}

-- A command without data, and a PDU of 1024 bytes over two buffers.
abbrev command_token : Token
command_token = record {
  bhs_offset = 0;
  hlength = 0;
  dlength = 0;
  first = record { name = 0; size = 4096 };
  others = [];
}

abbrev data_token : Token
data_token = record {
  bhs_offset = 100;
  hlength = 0;
  dlength = 1024;
  first = record { name = 1; size = 1000 };
  others = record { name = 2; size = 1000 } ∷ [];
}

abbrev part : DataOutReq
part = record { op_code = 5; itt = 7; lun = 0; dlength = 1024; final = true }

abbrev parts : List (DataOutReq × Token)
parts = (part, data_token) ∷ (part, data_token) ∷ []

abbrev part_Part : (n : ℕ) → 1024 ≤ n → Part 7 1 n part
part_Part n h = record {
  op = refl;
  tag = refl;
  lun = omega arith;
  some_bytes = omega arith;
  enough = h;
  last = λ _. refl;
}

abbrev parts_Parts : Parts 7 1 2048 parts
parts_Parts = (part_Part 2048 (omega arith), (part_Part 1024 (omega arith), refl))

abbrev data_fits : data_token.dlength ≤ 512 * 2
data_fits = omega arith

abbrev two_small : 512 * 2 < 2 ^ 64
two_small = omega arith

run-Completed_example :
    Completed 7 2048 waiting (run linear parts waiting).0 (run linear parts waiting).1
unfolding recv_get
run-Completed_example =
    run-Completed linear parts 7 waiting info refl (omega arith) (omega arith) (omega arith)
      parts_Parts

abbrev accepted : Accepted request session 1000
unfolding recv_get
accepted = record {
  write_only = (refl, refl);
  cdb = (refl, refl, refl);
  burst = omega arith;
  lun = refl;
  some_blocks = omega arith;
  short = omega arith;
  in_volume = omega arith;
  fresh = refl;
}

write-Completed_example :
    (s' : Session) × (handle_write linear request command_token session ≡ (true, s'))
    × Opened request session s'
    × Completed 7 (512 * 4) s' (run linear parts s').0 (run linear parts s').1
write-Completed_example =
    write-Completed linear request command_token session 1000 parts accepted refl parts_Parts
