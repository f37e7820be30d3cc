-- ===== src/Cache/Merge.antt =====
-- What push does to one segment that the written range hits.
use sstoraged.Common.{ℕ, ◌+◌, ◌^◌, ◌≤◌, ◌<◌, ◌≡◌, sym, ◌∙◌, ◌⊎◌, Option, none, some, arith}
use sstoraged.Cache.{WriteSegment, cut}
use sstoraged.Cache.Serve.{Source, source, Covers, Answers}

-- A range that does not wrap, and starts no earlier than what was written.
pub record Well (s : WriteSegment) : Type 0 where
  pub fits : s.rlba + s.rlength < 2 ^ 64
  pub within : s.lba ≤ s.rlba

module _ (whead wtail : ℕ) where
  abbrev pub Overlap : WriteSegment → Type 0
  Overlap s = (0 < s.rlength) × (s.rlba < wtail) × (whead < s.rlba + s.rlength)

  -- A segment that reaches over both ends of the range still has its first block, and its data
  -- begins at the head of its first buffer.
  abbrev pub SplitSafe : WriteSegment → Type 0
  SplitSafe s = s.rlba < whead → wtail < s.rlba + s.rlength → (s.rlba ≡ s.lba) × (s.ds_offset ≡ 0)

  -- A segment beside the range.
  pub record Beside (lba : ℕ) (s : WriteSegment) : Type 0 where
    pub same_lba : s.lba ≡ lba
    pub clear : ¬ Overlap s
    pub fine : Well s

abbrev pub OnCopy : (WriteSegment → Type 0) → Option WriteSegment → Type 0
OnCopy P none = ⊥
OnCopy P (some s) = P s

abbrev pub IfCopy : (WriteSegment → Type 0) → Option WriteSegment → Type 0
IfCopy P none = Unit
IfCopy P (some s) = P s

module _ (p whead wtail : ℕ) (s : WriteSegment) (range : whead < wtail) where
  module _ (w : Well s) where
    -- The hit keeps its address and its data, and no longer reaches into the range.
    cut-same :
        ((cut p whead wtail s).0.ptr ≡ s.ptr)
        × ((cut p whead wtail s).0.lba ≡ s.lba)
        × ((a : ℕ) → source (cut p whead wtail s).0 a ≡ source s a)
    unfolding cut
    cut-same = (ground arith, ground arith, λ a. ground arith)

    cut-Overlap : ¬ Overlap whead wtail (cut p whead wtail s).0
    unfolding cut
    cut-Overlap = ground arith

    cut-Well : Well (cut p whead wtail s).0
    unfolding cut
    cut-Well = ground arith

    cut-shrinks : (a : ℕ) → Covers (cut p whead wtail s).0 a → Covers s a
    unfolding cut
    cut-shrinks a = ground arith

  module _ (w : Well s) (small : s.lba + wtail < 2 ^ 64) (safe : SplitSafe whead wtail s) where
    -- The copy is a new segment beside the range.
    copy-ptr : IfCopy (λ c. c.ptr ≡ p) (cut p whead wtail s).1
    unfolding cut
    copy-ptr = ground arith

    copy-lba : IfCopy (λ c. c.lba ≡ s.lba) (cut p whead wtail s).1
    unfolding cut
    copy-lba = ground arith

    copy-Overlap : IfCopy (λ c. ¬ Overlap whead wtail c) (cut p whead wtail s).1
    unfolding cut
    copy-Overlap = ground arith

    copy-Well : IfCopy Well (cut p whead wtail s).1
    unfolding cut
    copy-Well = ground arith

    -- It answers as the hit did.
    copy-Answers :
        (a : ℕ) (b : Source) → IfCopy (λ c. Answers a b c → Answers a b s) (cut p whead wtail s).1
    unfolding cut
    copy-Answers a b = ground arith

    -- Outside the range, what the hit answered is answered by it or by the copy.
    cut-covers :
        (a : ℕ) (b : Source)
        → (a < whead) ⊎ (wtail ≤ a)
        → Answers a b s
        → Answers a b (cut p whead wtail s).0 ⊎ OnCopy (Answers a b) (cut p whead wtail s).1
    unfolding cut
    cut-covers a b out h = ground arith

-- All of it: what a cut leaves and adds.
pub record Facts (p whead wtail : ℕ) (s : WriteSegment) (r : WriteSegment × Option WriteSegment)
    : Type 0 where
  pub same_ptr : r.0.ptr ≡ s.ptr
  pub beside : Beside whead wtail s.lba r.0
  pub back : (a : ℕ) (b : Source) → Answers a b r.0 → Answers a b s
  pub copied :
      IfCopy
        (λ c.
          (c.ptr ≡ p)
          × Beside whead wtail s.lba c
          × ((a : ℕ) (b : Source) → Answers a b c → Answers a b s))
        r.1
  pub forth :
      (a : ℕ) (b : Source)
      → (a < whead) ⊎ (wtail ≤ a)
      → Answers a b s
      → Answers a b r.0 ⊎ OnCopy (Answers a b) r.1

module _ (p whead wtail : ℕ) (s : WriteSegment) where
  abbrev Copied : WriteSegment → Type 0
  Copied c =
      (c.ptr ≡ p)
      × Beside whead wtail s.lba c
      × ((a : ℕ) (b : Source) → Answers a b c → Answers a b s)

  gather :
      (o : Option WriteSegment)
      → IfCopy (λ c. c.ptr ≡ p) o
      → IfCopy (λ c. c.lba ≡ s.lba) o
      → IfCopy (λ c. ¬ Overlap whead wtail c) o
      → IfCopy Well o
      → ((a : ℕ) (b : Source) → IfCopy (λ c. Answers a b c → Answers a b s) o)
      → IfCopy Copied o
  gather none p l o w a = tt
  gather (some c) p l o w a = (p, record { same_lba = l; clear = o; fine = w }, a)

  pub cut-Facts :
      whead < wtail
      → Well s
      → s.lba + wtail < 2 ^ 64
      → SplitSafe whead wtail s
      → Facts p whead wtail s (cut p whead wtail s)
  cut-Facts range w small safe =
      let same = cut-same p whead wtail s range w in
      record {
        same_ptr = same.0;
        beside = record {
          same_lba = same.1;
          clear = cut-Overlap p whead wtail s range w;
          fine = cut-Well p whead wtail s range w;
        };
        back = λ a b x. (cut-shrinks p whead wtail s range w a x.0, sym (same.2 a) ∙ x.1);
        copied =
            gather (cut p whead wtail s).1 (copy-ptr p whead wtail s range w small safe)
              (copy-lba p whead wtail s range w small safe)
              (copy-Overlap p whead wtail s range w small safe)
              (copy-Well p whead wtail s range w small safe)
              (copy-Answers p whead wtail s range w small safe);
        forth = cut-covers p whead wtail s range w small safe;
      }
