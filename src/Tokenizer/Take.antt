-- ===== src/Tokenizer/Take.antt =====
-- src/iscsi/tokenizer.cpp: the loop of `push` that steps over a PDU.
use sstoraged.Common.{
  ℕ, zero, suc, ◌+◌, ◌^◌, ◌≤◌, ◌<◌, ◌≡◌, List, arith, ◌==◌, ◌⊎◌, sub64, Option, some, none,
  if_cases, ==_iff,
}
use sstoraged.Buffers.{IovecContainer, Stepped, step_offsets}
use sstoraged.Buffers.Space.{unread}
use sstoraged.Buffers.Reading.{Taken, step_offsets-Taken, open_count}
use sstoraged.Buffers.Turning.{Ready}
use sstoraged.Tokenizer.{Memory, get_pdu_length, take_pdu, and_buffer}

abbrev pub Bytes : Memory → Type 0
Bytes m = (name i : ℕ) → m name i < 256

pub get_pdu_length-range :
    (m : Memory) (name i : ℕ)
    → Bytes m
    → (48 ≤ get_pdu_length m name i) × (get_pdu_length m name i < 2 ^ 32)
unfolding get_pdu_length
get_pdu_length-range m name i h =
    ground (arith, h name (i + 4), h name (i + 5), h name (i + 6), h name (i + 7))

-- A PDU that is there is stepped over.
abbrev pub TakenPdu : ℕ → IovecContainer → Option (List ℕ × IovecContainer) → Type 0
TakenPdu n c none = ⊥
TakenPdu n c (some (names, d)) = Ready d × (unread d.cbufs + n ≡ unread c.cbufs)

TakenPdu-and_buffer :
    (n left name : ℕ) (c d : IovecContainer) (o : Option (List ℕ × IovecContainer))
    → unread d.cbufs + n ≡ unread c.cbufs + left
    → TakenPdu left d o
    → TakenPdu n c (and_buffer name o)
TakenPdu-and_buffer n left name c d none e t = t
TakenPdu-and_buffer n left name c d (some (names, x)) e (r, u) = (r, omega (arith, e, u))

-- Fuel is enough where it is two more than the buffers not at their end.
abbrev Enough : ℕ → ℕ → IovecContainer → Type 0
Enough fuel n c = ((n ≡ 0) × (1 ≤ fuel)) ⊎ (open_count c.cbufs + 2 ≤ fuel)

take_step :
    (fuel n : ℕ) (c : IovecContainer) (o : Option Stepped)
    → Ready c
    → n ≤ unread c.cbufs
    → open_count c.cbufs + 1 ≤ fuel
    → Taken n c.cbufs o
    → ((left : ℕ) (d : IovecContainer)
        → Ready d
        → left ≤ n
        → left ≤ unread d.cbufs
        → Enough fuel left d
        → TakenPdu left d (take_pdu fuel left d))
    → TakenPdu n c (elim o [
      | none ↦ none
      | some s ↦
          and_buffer s.found.name
            (take_pdu fuel s.left (record c { cbufs = s.cbufs; remain = sub64 c.remain s.taken }))
    ])
take_step fuel n c none r le f t ih = t
take_step fuel n c (some s) r le f t ih =
    let d : IovecContainer = record c { cbufs = s.cbufs; remain = sub64 c.remain s.taken } in
    TakenPdu-and_buffer n s.left s.found.name c d (take_pdu fuel s.left d) t.1.0 (
      ih s.left d (t.0, (omega (arith, t.1.1.1.0, r.1.0), r.1.1)) t.1.1.0 (omega (arith, t.1.0, le))
        (ground (arith, t.1.1.1.1.1.0, f)))

pub take_pdu-TakenPdu :
    (fuel n : ℕ) (c : IovecContainer)
    → Ready c
    → n < 2 ^ 63
    → n ≤ unread c.cbufs
    → Enough fuel n c
    → TakenPdu n c (take_pdu fuel n c)
unfolding take_pdu
take_pdu-TakenPdu zero n c r z le f = absurd (ground (arith, f))
take_pdu-TakenPdu (suc fuel) n c r z le f =
    if_cases (TakenPdu n c) (n == 0) _ _ (λ e. (r, omega (arith, (==_iff n 0).0 e)))
      (λ e.
        take_step fuel n c (step_offsets n c.cbufs) r le (ground (arith, e, f))
          (step_offsets-Taken c.cbufs n r.0 (ground (arith, e)) z le)
          (λ left d r' l u f'. take_pdu-TakenPdu fuel left d r' (omega (arith, z, l)) u f'))
