-- ===== src/Read/Frames.antt =====
-- The PDUs of a read that misses the write cache: how `handle` cuts the range.
use sstoraged.Common.{
  ℕ, zero, suc, ◌+◌, ◌-◌, ◌*◌, ◌%◌, ◌^◌, ◌≤◌, ◌<◌, ◌≡◌, refl, subst, ◌∙◌, true, false, ltb, ◌==◌,
  Option, none, some, List, [], ◌∷◌, arith, Bool-cases, inl, inr, ltb→lt, sub32, add64,
}
use sstoraged.Counter.{next_sn}
use sstoraged.Counter.Laws.{next_sn_lem}
use sstoraged.Cache.{lba2offset}
use sstoraged.Session.{DataIn, Task, pdu_data_in, task_send, task_sendfile}
use sstoraged.Read.{chunk, prepend, next_reply, miss_loop, offset2lba}

-- A header with the length of n blocks, at its place in the transfer.
pub record Header (d : DataIn) (n off sn : ℕ) : Type 0 where
  pub length : d.dlength ≡ 512 * n
  pub place : d.offset ≡ off
  pub number : d.datasn ≡ sn

-- A header and a run of blocks, again and again; only the last one is final. The range has n blocks
-- from `lba` on, and begins at the byte `off` of the transfer.
pub data Framed (most : ℕ) : ℕ → ℕ → ℕ → ℕ → List Task → Type 0 where
  framed_last :
      (d : DataIn) (lba off sn n : ℕ)
      → Header d n off sn
      → d.final ≡ true
      → 0 < n
      → n ≤ most
      → Framed most lba off sn n (task_send (pdu_data_in d) ∷ task_sendfile lba n ∷ [])
  framed_more :
      (d : DataIn) (lba off sn n : ℕ) (l : List Task)
      → Header d most off sn
      → d.final ≡ false
      → Framed most (lba + most) (off + 512 * most) (sn + 1) n l
      → Framed most lba off sn (most + n) (task_send (pdu_data_in d) ∷ task_sendfile lba most ∷ l)

-- A header at the beginning of a round.
pub record Begins (d : DataIn) (off sn : ℕ) : Type 0 where
  pub place : d.offset ≡ off
  pub number : d.datasn ≡ sn
  pub counter : d.datasn_gen ≡ sn + 1
  pub not_final : d.final ≡ false

abbrev pub FramedAs : ℕ → ℕ → ℕ → ℕ → ℕ → Option (List Task) → Type 0
FramedAs most lba off sn n none = ⊥
FramedAs most lba off sn n (some l) = Framed most lba off sn n l

module _ (mrds most : ℕ) (whole : mrds ≡ 512 * most) (some_blocks : 0 < most)
    (small : most < 2 ^ 15) where
  round_trip : offset2lba mrds ≡ most
  round_trip = omega (arith, whole)

  -- The header of a full PDU, and the one after it.
  abbrev pub full : DataIn → DataIn
  full d = record d { dlength = mrds % 2 ^ 24 }

  full-Header : (d : DataIn) (off sn : ℕ) → Begins d off sn → Header (full d) most off sn
  full-Header d off sn b = record {
    length = omega (arith, whole);
    place = b.place;
    number = b.number;
  }

  next-Begins :
      (d : DataIn) (off sn : ℕ)
      → Begins d off sn
      → off + 512 * most < 2 ^ 32
      → sn + 1 < 2 ^ 32 - 1
      → Begins (next_reply (full d) most) (off + 512 * most) (sn + 1)
  next-Begins d off sn b w x = record {
    place = omega (arith, b.place);
    number = b.counter;
    counter = rw b.counter (counted (sn + 1) x);
    not_final = b.not_final;
  }
    where
      counted : (c : ℕ) → c < 2 ^ 32 - 1 → (next_sn c).1 ≡ c + 1
      counted c h = next_sn_lem c (omega arith) ∙ omega arith

  abbrev pair : DataIn → ℕ → List Task
  pair d lba = task_send (pdu_data_in d) ∷ task_sendfile lba most ∷ []

  prefixed-Framed :
      (d : DataIn) (lba off sn n : ℕ) (o : Option (List Task))
      → Header d most off sn
      → d.final ≡ false
      → FramedAs most (lba + most) (off + 512 * most) (sn + 1) n o
      → FramedAs most lba off sn (most + n) (prepend (pair d lba) o)
  prefixed-Framed d lba off sn n none h k f = f
  prefixed-Framed d lba off sn n (some l) h k f = framed_more d lba off sn n l h k f

  chunk_more :
      (n : ℕ) (d : DataIn)
      → most < n
      → chunk mrds n d ≡ record { length = most; left = n; reply = full d }
  unfolding chunk
  chunk_more n d e = let more : ltb most n ≡ true = ground arith in rw (round_trip, more)

  pub chunk_last :
      (n : ℕ) (d : DataIn)
      → n ≤ most
      → chunk mrds n d ≡ record {
        length = n;
        left = 0;
        reply = record d { final = true; dlength = lba2offset n % 2 ^ 24 };
      }
  unfolding chunk
  chunk_last n d e = let done : ltb most n ≡ false = ground arith in rw (round_trip, done)

  miss_loop_more :
      (fuel lba n : ℕ) (d : DataIn)
      → most < n
      → n < 2 ^ 32
      → lba + n < 2 ^ 64
      → miss_loop (suc fuel) mrds d lba n
        ≡ prepend
            (pair (full d) lba)
            (miss_loop fuel mrds (next_reply (full d) most) (lba + most) (n - most))
  unfolding miss_loop
  miss_loop_more fuel lba n d e v w =
      let some_left : (n == 0) ≡ false = ground arith in
      let k : add64 lba most ≡ lba + most = omega arith in
      let m : sub32 n most ≡ n - most = omega arith in rw (chunk_more n d e, some_left, k, m)

  miss_loop_last :
      (fuel lba off sn n : ℕ) (d : DataIn)
      → Begins d off sn
      → 0 < n
      → n ≤ most
      → FramedAs most lba off sn n (miss_loop (suc fuel) mrds d lba n)
  unfolding miss_loop
  miss_loop_last fuel lba off sn n d b p e = rw (chunk_last n d e) (
      framed_last (record d { final = true; dlength = lba2offset n % 2 ^ 24 }) lba off sn n
        (record { length = omega arith; place = b.place; number = b.number }) refl p e)

  -- With MaxRecvDataSegmentLength a positive multiple of 512 below 2^24, the loop of a cache miss
  -- ends for every positive length within 2^16 blocks, and cuts the range into Data-In PDUs with
  -- consecutive DataSN and Buffer Offset, all but the last of full length and not final.
  pub miss_loop-Framed :
      (fuel lba off sn n : ℕ) (d : DataIn)
      → Begins d off sn
      → 0 < n
      → n ≤ fuel
      → lba + n < 2 ^ 64
      → off + 512 * n < 2 ^ 32
      → sn + n < 2 ^ 32 - 1
      → FramedAs most lba off sn n (miss_loop fuel mrds d lba n)
  miss_loop-Framed zero lba off sn n d b p f v w x = absurd (omega arith)
  miss_loop-Framed (suc fuel) lba off sn n d b p f v w x = elim (Bool-cases (ltb most n)) [
    | inl e ↦
        let more = ltb→lt most n e in
        let split : most + (n - most) ≡ n = omega arith in
        let rest =
          miss_loop-Framed fuel (lba + most) (off + 512 * most) (sn + 1) (n - most)
            (next_reply (full d) most) (next-Begins d off sn b (omega arith) (omega arith))
            (omega arith) (omega arith) (omega arith) (omega arith) (omega arith) in
        rw (miss_loop_more fuel lba n d more (omega arith) v) (
          subst
            (λ m. FramedAs most lba off sn m (
              prepend (pair (full d) lba)
                (miss_loop fuel mrds (next_reply (full d) most) (lba + most) (n - most))))
            split
            (prefixed-Framed (full d) lba off sn (n - most) _ (full-Header d off sn b) b.not_final
              rest))
    | inr e ↦ miss_loop_last fuel lba off sn n d b p (ground arith)
  ]
