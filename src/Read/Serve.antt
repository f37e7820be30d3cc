-- ===== src/Read/Serve.antt =====
-- A READ(10) from end to end: what the session queues for it.
use sstoraged.Common.{
  ℕ, ◌+◌, ◌*◌, ◌^◌, ◌≤◌, ◌<◌, zero, suc, ◌≡◌, refl, sym, Bool, true, Option, none, some, List, [],
  ◌∷◌, ◌++◌, All, select, arith, Bool-cases, ◌⊎◌, inl, inr, add64_small,
}
use mathlib.Core.List.{append-nil}
use sstoraged.Cache.{WriteSegment, LbaIndex, search}
use sstoraged.Cache.Search.{After, Ordered, Fits, overlaps, search-select}
use sstoraged.Session.{DataIn, Task, task_send, pdu_data_in}
use sstoraged.Read.{get_hit_segments, is_hit, send_cache, hit_loop, miss_loop, read_tasks, chunk}
use sstoraged.Read.Hits.{blocks, covers, disk_run, view, view-select, view-beyond, view-add, Block}
use sstoraged.Read.Tiling.{Live, Follow, Ahead, send_cache-view}
use sstoraged.Read.Frames.{
  Begins, Framed, FramedAs, framed_last, framed_more, chunk_last, miss_loop-Framed,
}

-- A range that does not wrap, of a length of 32 bits.
pub record Sized (s : WriteSegment) : Type 0 where
  pub short : s.rlength < 2 ^ 32
  pub fits : s.rlba + s.rlength < 2 ^ 64

module _ (lba length : ℕ) (bound : lba + length < 2 ^ 64) where
  follows :
      (s : WriteSegment) (m : List WriteSegment)
      → 0 < s.rlength
      → All (After s) m
      → All (λ t. 0 < t.rlength → s.rlba + s.rlength ≤ t.rlba) m
  follows s [] p a = tt
  follows s (t ∷ m) p a = (a.0.1 p, follows s m p a.1)

  live : (s : WriteSegment) → Sized s → overlaps lba length s ≡ true → Live s
  live s v k = record { some_blocks = ground arith; short = v.short; fits = v.fits }

  -- The segments that a search finds are as `sendCache` expects them.
  select-Follow :
      (e : ℕ) (l : List WriteSegment)
      → Ordered l
      → All Sized l
      → All (λ t. 0 < t.rlength → e ≤ t.rlba) l
      → Follow e (select (overlaps lba length) l)
  select-Follow e [] o v h = tt
  select-Follow e (s ∷ l) o v h = elim (Bool-cases (overlaps lba length s)) [
    | inl k ↦
        rw (k, select)
          (
            h.0 (ground arith),
            live s v.0 k,
            select-Follow (s.rlba + s.rlength) l o.1 v.1 (follows s l (ground arith) o.0),
          )
    | inr k ↦ rw (k, select) (select-Follow e l o.1 v.1 h.1)
  ]

  select-Ahead :
      (l : List WriteSegment) → Ordered l → All Sized l → Ahead lba (select (overlaps lba length) l)
  select-Ahead [] o v = tt
  select-Ahead (s ∷ l) o v = elim (Bool-cases (overlaps lba length s)) [
    | inl k ↦
        rw (k, select)
          (
            ground arith,
            live s v.0 k,
            select-Follow (s.rlba + s.rlength) l o.1 v.1 (follows s l (ground arith) o.0),
          )
    | inr k ↦ rw (k, select) (select-Ahead l o.1 v.1)
  ]

  select-near :
      (l : List WriteSegment) → All (λ t. t.rlba ≤ lba + length) (select (overlaps lba length) l)
  select-near [] = tt
  select-near (s ∷ l) = elim (Bool-cases (overlaps lba length s)) [
    | inl k ↦ rw (k, select) (ground arith, select-near l)
    | inr k ↦ rw (k, select) (select-near l)
  ]

  -- Each of them is a hit of the whole range.
  select-hits :
      (l : List WriteSegment)
      → All Sized l
      → get_hit_segments (select (overlaps lba length) l) lba length
        ≡ select (overlaps lba length) l
  unfolding get_hit_segments
  select-hits [] v = refl
  select-hits (s ∷ l) v = elim (Bool-cases (overlaps lba length s)) [
    | inl k ↦
        let hit : is_hit lba length s ≡ true =
          rw (add64_small lba length bound, add64_small s.rlba s.rlength v.0.fits) (ground arith) in
        rw (k, select, hit, select-hits l v.1)
    | inr k ↦ rw (k, select, select-hits l v.1)
  ]

  select-view :
      (l : List WriteSegment) → view (select (overlaps lba length) l) lba length ≡ view l lba length
  select-view l = view-select (overlaps lba length) l lba length (λ b i j. covered b i j l)
    where
      covered :
          (b : ℕ)
          → lba ≤ b
          → b < lba + length
          → (m : List WriteSegment) → All (λ s. covers s b ≡ true → overlaps lba length s ≡ true) m
      covered b i j [] = tt
      covered b i j (s ∷ m) = ((λ k. ground arith), covered b i j m)

disk_run-add : (a m n : ℕ) → disk_run a m ++ disk_run (a + m) n ≡ disk_run a (m + n)
disk_run-add a m n =
    rw (← view-beyond [] a m tt, ← view-beyond [] (a + m) n tt, ← view-beyond [] a (m + n) tt)
      (sym (view-add [] a m n))

-- What the PDUs of a cache miss deliver.
Framed-blocks :
    (most lba off sn n : ℕ) (l : List Task) → Framed most lba off sn n l → blocks l ≡ disk_run lba n
Framed-blocks most _ _ _ _ _ (framed_last d lba off sn n h f p q) = append-nil (disk_run lba n)
Framed-blocks most _ _ _ _ _ (framed_more d lba off sn n l h f r) =
    rw (Framed-blocks most (lba + most) (off + 512 * most) (sn + 1) n l r) (disk_run-add lba most n)

-- The tasks that a read queues deliver the view `v`.
abbrev pub Delivered : Option (Bool × List Task) → List Block → Type 0
Delivered r v = (l : List Task) × (r ≡ some (true, l)) × (blocks l ≡ v)

module _ (mrds most : ℕ) (whole : mrds ≡ 512 * most) (some_blocks : 0 < most)
    (small : most < 2 ^ 15) where
  miss_Delivered :
      (fuel lba n : ℕ) (d : DataIn)
      → Begins d 0 0
      → 0 < n
      → n ≤ fuel
      → n < 2 ^ 16
      → lba + n < 2 ^ 64
      → Delivered (read_tasks fuel mrds [] d lba n) (disk_run lba n)
  unfolding read_tasks
  miss_Delivered fuel lba n d b p f w v = go (miss_loop fuel mrds d lba n) (
      miss_loop-Framed mrds most whole some_blocks small fuel lba 0 0 n d b p f v (omega arith)
        (omega arith))
    where
      go :
          (o : Option (List Task))
          → FramedAs most lba 0 0 n o
          → Delivered (elim o [ none ↦ none | some l ↦ some (true, l) ]) (disk_run lba n)
      go none x = elim x [ ]
      go (some l) x = (l, refl, Framed-blocks most lba 0 0 n l x)

  hit_Delivered :
      (fuel lba n : ℕ) (d : DataIn) (s : WriteSegment) (cache : List WriteSegment)
      → n ≤ most
      → 0 < fuel
      → get_hit_segments (s ∷ cache) lba n ≡ s ∷ cache
      → Delivered
          (read_tasks fuel mrds (s ∷ cache) d lba n)
          (blocks (send_cache (s ∷ cache) lba n).0)
  unfolding read_tasks hit_loop
  hit_Delivered zero lba n d s cache k p e = absurd (omega arith)
  hit_Delivered (suc fuel) lba n d s cache k p e =
      let last = chunk_last mrds most whole some_blocks small n d k in
      let header = task_send (pdu_data_in (chunk mrds n d).reply) in
      (header ∷ (send_cache (s ∷ cache) lba n).0, rw (hit_loop, last, e, last, e), refl)

  -- A read that misses the write cache, or that fits in one PDU, queues tasks that deliver its range
  -- block by block, each from the live segment of the index that covers it or else from disk. The
  -- keys of the index are in order, its live ranges are disjoint, and MaxRecvDataSegmentLength is a
  -- positive multiple of 512 below 2^24.
  pub read_tasks-view :
      (ix : LbaIndex) (index : List WriteSegment) (fuel lba n : ℕ) (d : DataIn)
      → Ordered index
      → All Sized index
      → Begins d 0 0
      → 0 < n
      → n ≤ fuel
      → n < 2 ^ 16
      → lba + n < 2 ^ 64
      → (n ≤ most) ⊎ (search ix index lba n ≡ [])
      → Delivered (read_tasks fuel mrds (search ix index lba n) d lba n) (view index lba n)
  read_tasks-view ix index fuel lba n d o v b p f w x y =
      let found = search-select ix index lba n x o (fits index v) in
      rw (← select-view lba n x index, found)
        (go (select (overlaps lba n) index) (select-hits lba n x index v)
          (select-Ahead lba n x index o v) (select-near lba n x index) (rw found at y))
    where
      fits : (l : List WriteSegment) → All Sized l → All Fits l
      fits [] a = tt
      fits (s ∷ l) a = (a.0.fits, fits l a.1)

      go :
          (cache : List WriteSegment)
          → get_hit_segments cache lba n ≡ cache
          → Ahead lba cache
          → All (λ t. t.rlba ≤ lba + n) cache
          → (n ≤ most) ⊎ (cache ≡ [])
          → Delivered (read_tasks fuel mrds cache d lba n) (view cache lba n)
      go [] e a k z = rw (view-beyond [] lba n tt) (miss_Delivered fuel lba n d b p f w x)
      go (s ∷ cache) e a k (inr z) = cc
      go (s ∷ cache) e a k (inl z) =
          rw (← send_cache-view (s ∷ cache) lba n x (omega arith) a k)
            (hit_Delivered fuel lba n d s cache z (omega arith) e)
