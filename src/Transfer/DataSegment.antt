-- ===== src/Transfer/DataSegment.antt =====
-- frontDataSegment: when a PDU yields a write segment, and what the segment holds.
use sstoraged.Common.{
  ℕ, ◌+◌, ◌-◌, ◌*◌, ◌^◌, ◌≤◌, ◌<◌, ◌≡◌, false, Option, none, some, List, [], ◌∷◌, ◌++◌, ◌⊎◌,
}
use sstoraged.Cache.{WriteSegment}
use sstoraged.Session.{Token, Cbuf}

abbrev pub room : List Cbuf → ℕ
room [] = 0
room (b ∷ l) = b.size + room l

abbrev pub names : List Cbuf → List ℕ
names [] = []
names (b ∷ l) = b.name ∷ names l

-- A segment over the given blocks with `bytes` bytes, in the buffers `bufs`, from `offset` on.
pub record Holds (lba length bytes offset : ℕ) (bufs : List ℕ) (ws : WriteSegment) : Type 0 where
  pub begins : (ws.lba ≡ lba) × (ws.rlba ≡ lba)
  pub spans : (ws.transfer_length ≡ length) × (ws.rlength ≡ length)
  pub stored : ws.stored ≡ bytes
  pub offset_in : ws.ds_offset ≡ offset
  pub buffers : ws.cbufs ≡ bufs
  pub original : ws.copy ≡ false

module _ (lba length dlength offset : ℕ) (fits : dlength ≤ 512 * length)
    (small : 512 * length < 2 ^ 64) where
  -- The buffers taken are a prefix of those of the token, no longer than needed.
  abbrev pub Taken : ℕ → List ℕ → List Cbuf → Option WriteSegment → Type 0
  Taken stored bufs l none = ⊥
  Taken stored bufs l (some ws) =
      (pre : List Cbuf) × (post : List Cbuf) × (l ≡ pre ++ post)
      × (dlength ≤ stored + room pre)
      × Holds lba length dlength offset (bufs ++ names pre) ws

-- Where the data of a token begins, behind the 48 bytes of the basic header and the additional ones: in
-- its first buffer, or, where the basic header runs over the end of that buffer, in the second one. In
-- the latter case the code leaves out the additional headers, so there are none here.
abbrev pub Starts : Token → Cbuf → List Cbuf → ℕ → Type 0
Starts t b l offset =
    ((t.bhs_offset + 48 ≤ t.first.size)
      × (b ≡ t.first)
      × (l ≡ t.others)
      × (offset ≡ 48 + t.hlength + t.bhs_offset))
    ⊎ ((t.bhs_offset ≤ t.first.size)
        × (t.first.size < t.bhs_offset + 48)
        × (t.others ≡ b ∷ l)
        × (t.hlength ≡ 0)
        × (offset ≡ 48 + t.hlength - (t.first.size - t.bhs_offset)))
