-- ===== src/Tokenizer/Progress.antt =====
-- src/iscsi/tokenizer.cpp: `push` comes to an end, with every whole PDU in the queue.
use sstoraged.Common.{ℕ, ◌≤◌, ◌<◌, ◌≡◌, Bool, true, List, ◌++◌, head?, ◌⊎◌, Option, some, none}
use sstoraged.Buffers.Space.{FrontOpen, unread}
use sstoraged.Buffers.Turning.{Ready}
use sstoraged.Tokenizer.{
  Memory, Tokenizer, TokenStatus, token_head, token_partial, token_complete, QueuedToken,
  pdu_length_at,
}
use sstoraged.Tokenizer.Take.{Bytes}

abbrev pub StatusFits : TokenStatus → ℕ → Type 0
StatusFits token_head offset = Unit
StatusFits token_partial offset = 48 ≤ offset
StatusFits token_complete offset = ⊥

-- Between two calls: `offset` is what the buffers hold that is not read, of which TOKEN_PARTIAL
-- says that there is a header.
abbrev pub Held : Tokenizer → Type 0
Held t =
    Bytes t.memory
    × (Ready t.buf × ((t.offset ≡ unread t.buf.cbufs) × StatusFits t.status t.offset))

abbrev pub IsValid : Tokenizer → Type 0
IsValid t = Held t × FrontOpen t.buf.cbufs

-- What is held is less than a header, or than the PDU it begins with.
abbrev pub Waits : Tokenizer → Type 0
Waits t =
    (t.offset < 48)
    ⊎ (FrontOpen t.buf.cbufs × (t.offset < pdu_length_at t.memory (head? t.buf.cbufs)))

-- The queue `l` with tokens behind it.
abbrev pub Longer : List QueuedToken → List QueuedToken → Type 0
Longer l m = (new : List QueuedToken) × (m ≡ l ++ new)

abbrev pub Settled : List QueuedToken → ℕ → Option (Bool × Tokenizer) → Type 0
Settled bhss offset none = ⊥
Settled bhss offset (some (ok, t)) =
    (ok ≡ true) × (IsValid t × (Waits t × ((t.offset ≤ offset) × Longer bhss t.bhss)))

-- The header on the edge is joined: there are two buffers at least.
abbrev Joined : Option Memory → Type 0
Joined none = ⊥
Joined (some m) = Bytes m

-- What `goto multi_tokens` does with a smaller offset.
abbrev Goto : (Tokenizer → Option (Bool × Tokenizer)) → ℕ → Type 0
Goto goto offset =
    (t : Tokenizer) → IsValid t → t.offset < offset → Settled t.bhss t.offset (goto t)
