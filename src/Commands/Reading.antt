-- ===== src/Commands/Reading.antt =====
-- READ(10) from the bytes of its CDB to the blocks that are sent, through CommandHandler::handle.
use sstoraged.Common.{
  ℕ, zero, suc, ◌+◌, ◌*◌, ◌%◌, ◌^◌, ◌≤◌, ◌<◌, ◌≡◌, ap, ◌∙◌, true, false, if◌then◌else◌, ◌⊎◌, some,
  List, [], ◌∷◌, ◌++◌, All, arith,
}
use sstoraged.Limitter.{make_limitter, get_cmd_queue}
use sstoraged.Limitter.Range.{IsSpread}
use sstoraged.Cache.{WriteCache, search}
use sstoraged.Cache.Search.{Ordered}
use sstoraged.Session.{Session, CommandReq, Token, Task, task_cork, task_uncork}
use sstoraged.Read.Hits.{blocks, view}
use sstoraged.Read.Serve.{Sized}
use sstoraged.Read.Whole.{Accepted, handle_read-view}
use sstoraged.Scsi.{CommandHeader, byte, be16, be32, to_req}
use sstoraged.Commands.{
  Surroundings, command_valid, find_handler, call_handler, read_10, handle_command,
}
use sstoraged.Commands.Counting.{count_command-Entered, handle_command-call}

byte-lt : (l : List ℕ) (i : ℕ) → All (λ b. b < 256) l → byte l i < 256
byte-lt [] i h = omega arith
byte-lt (x ∷ l) zero h = h.0
byte-lt (x ∷ l) (suc i) h = byte-lt l i h.1

reads : (op : ℕ) → op ≡ 0x28 → find_handler op ≡ some read_10
unfolding find_handler
reads op o = rw o

Accepted-numbers :
    (req : CommandReq) (s : Session) (total : ℕ) (c : WriteCache) (x y : ℕ)
    → Accepted req s total c
    → Accepted req (record s { expcmdsn = x; maxcmdsn = y }) total c
Accepted-numbers req s total c x y a = record {
  read_only = a.read_only;
  cdb = a.cdb;
  final = a.final;
  lun = a.lun;
  some_blocks = a.some_blocks;
  in_volume = a.in_volume;
  cache = a.cache;
}

-- The range that the bytes of a CDB name, the most significant first.
abbrev pub lba_named : ℕ → ℕ → ℕ → ℕ → ℕ
lba_named b2 b3 b4 b5 = b2 * 2 ^ 24 + b3 * 2 ^ 16 + b4 * 2 ^ 8 + b5

abbrev pub blocks_named : ℕ → ℕ → ℕ
blocks_named b7 b8 = b7 * 2 ^ 8 + b8

-- READ(10) from the bytes of its CDB to the blocks that are sent: an accepted command whose range misses
-- the write cache or fits in one PDU succeeds. ExpCmdSN has advanced by one unless the command is an
-- immediate one, and the window then holds a command at least. It queues, between a cork and an uncork,
-- tasks that deliver the range that bytes 2 to 5 and 7 to 8 of the CDB name block by block, each from the live segment of the
-- cache that covers it or else from disk, and StatSN advances by one. The limits are spread, the
-- numbers of the session are of 32 bits and the CDB consists of bytes; the keys of the cache's index are
-- in order, its live ranges are disjoint and do not wrap, and MaxRecvDataSegmentLength is a positive
-- multiple of 512 below 2^24.
pub handle_command-view :
    (x1 x2 poolnum : ℕ) (sizes : List ℕ) (e : Surroundings) (h : CommandHeader) (token : Token)
    (s : Session) (total : ℕ) (c : WriteCache) (most b1 b2 b3 b4 b5 b6 b7 b8 : ℕ) (rest : List ℕ)
    → h.scb ≡ 0x28 ∷ b1 ∷ b2 ∷ b3 ∷ b4 ∷ b5 ∷ b6 ∷ b7 ∷ b8 ∷ rest
    → IsSpread x1 x2
    → s.expcmdsn < 2 ^ 32
    → s.maxcmdsn < 2 ^ 32
    → s.statsn < 2 ^ 32
    → (to_req h).op_code ≡ 0x01
    → Accepted (to_req h) s total c
    → Ordered c.index
    → All Sized c.index
    → s.mrds ≡ 512 * most
    → 0 < most
    → most < 2 ^ 15
    → All (λ b. b < 256) h.scb
    → (blocks_named b7 b8 ≤ most)
      ⊎ (search e.index c.index (lba_named b2 b3 b4 b5) (blocks_named b7 b8) ≡ [])
    → (l : List Task) × (s' : Session) × (handle_command 144
          (make_limitter x1 x2)
          poolnum
          sizes
          e
          h
          token
          s
        ≡ some (true, s'))
      × (s'.sendtask ≡ s.sendtask ++ (task_cork ∷ (l ++ (task_uncork ∷ []))))
      × (blocks l ≡ view c.index (lba_named b2 b3 b4 b5) (blocks_named b7 b8))
      × (s'.statsn ≡ (s.statsn + 1) % 2 ^ 32)
      × (s'.expcmdsn ≡ (if (to_req h).immediate_cmd then s.expcmdsn else (s.expcmdsn + 1) % 2 ^ 32))
      × ((to_req h).immediate_cmd ≡ false → 1 ≤ get_cmd_queue s'.expcmdsn s'.maxcmdsn)
unfolding call_handler to_req
handle_command-view x1 x2 poolnum sizes e h token s total c most b1 b2 b3 b4 b5 b6 b7 b8 rest named
      spread he hm hs o a ord siz p q r bytes w =
    let b = λ (i : ℕ). byte-lt h.scb i bytes in
    let (s1, (counted, entered)) =
      count_command-Entered x1 x2 poolnum sizes (to_req h) s spread he hm in
    let s2 : Session = record s { expcmdsn = s1.expcmdsn; maxcmdsn = s1.maxcmdsn } in
    let here : (to_req h).lba ≡ lba_named b2 b3 b4 b5 =
      ap (λ (q : List ℕ). be32 q 2) named ∙ omega arith in
    let long : (to_req h).transfer_length ≡ blocks_named b7 b8 =
      ap (λ (q : List ℕ). be16 q 7) named ∙ omega arith in
    let valid : command_valid (to_req h) ≡ true = ground (arith, o, a.read_only) in
    let (l, s', run, queued, delivered, answered, exp, window) =
      handle_read-view e.index (to_req h).transfer_length (to_req h) s2 total c most
        (Accepted-numbers (to_req h) s total c s1.expcmdsn s1.maxcmdsn a) ord siz p q r
        (omega arith) (omega (arith, b 7, b 8)) (omega (arith, b 2, b 3, b 4, b 5)) hs
        (rw (← here, ← long) at w) in
    (
      l,
      s',
      handle_command-call 144 (make_limitter x1 x2) poolnum sizes e h token s s2 read_10 valid
            (counted ∙ ap some entered.kept) (reads (byte h.scb 0) a.cdb.0)
          ∙ run,
      queued,
      delivered ∙ rw (here, long),
      answered,
      exp ∙ entered.counted,
      λ i. rw (exp, window) (entered.window i),
    )
