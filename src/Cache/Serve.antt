-- ===== src/Cache/Serve.antt =====
-- What the index answers a read from: for each LBA, the buffers and the byte where its block begins.
use sstoraged.Common.{ℕ, ◌+◌, ◌-◌, ◌*◌, ◌≤◌, ◌<◌, ◌≡◌, List, Any}
use sstoraged.Cache.{WriteSegment}

-- A block in the receive buffers: its first byte, counted over `bufs` from the head of the first.
pub record Source : Type 0 where
  pub bufs : List ℕ
  pub byte : ℕ

abbrev pub source : WriteSegment → ℕ → Source
source s a = record { bufs = s.cbufs; byte = s.ds_offset + 512 * (a - s.lba) }

abbrev pub Covers : WriteSegment → ℕ → Type 0
Covers s a = (s.rlba ≤ a) × (a < s.rlba + s.rlength)

-- A segment answers for the LBA `a` with the block `b`.
abbrev pub Answers : ℕ → Source → WriteSegment → Type 0
Answers a b s = Covers s a × (source s a ≡ b)

-- Some segment of the index does.
abbrev pub Serves : List WriteSegment → ℕ → Source → Type 0
Serves l a b = Any (Answers a b) l
