-- ===== src/Tests/ControlCases.antt =====
-- A NOP-Out on one connection, and a logout of the session on another.
use sstoraged.Common.{
  ℕ, ◌+◌, Bool, false, ltb, ◌==◌, if◌then◌else◌, Bool-cases, inl, inr, arith, ◌≡◌, refl, true, some,
  List, [], ◌∷◌, ◌++◌,
}
use sstoraged.Limitter.{LinearLimitter, make_limitter, pool_normal}
use sstoraged.Dispatch.{session_normal}
use sstoraged.KeyValue.{key_code, default_time2wait}
use sstoraged.KeyValue.Handlers.{attr_number}
use sstoraged.Control.{
  ControlReq, ControlTask, Peer, rsvd_task_tag, handle_control, send_nop_in, send_logout,
  end_reactor,
}
use sstoraged.Control.Numbering.{
  weigh, Merges, Numbered, controls_none, controls_more, Controls-Numbered, StepNumbered,
  handle_control-Numbered,
}

abbrev limits : LinearLimitter
limits = make_limitter 100 200

-- A merge that takes the reply of a logout, and the tasks behind it, before those of the queue that
-- stand on other sockets.
abbrev comes_first : ControlTask → ControlTask → Bool
comes_first (send_logout h r w t) (send_nop_in g u) = ltb h.fd g.fd
comes_first a b = false

abbrev insert : ControlTask → List ControlTask → List ControlTask
insert t [] = t ∷ []
insert t (x ∷ l) = if comes_first t x then t ∷ x ∷ l else x ∷ insert t l

abbrev merged : List ControlTask → List ControlTask → List ControlTask
merged l [] = l
merged l (t ∷ m) = merged (insert t l) m

weigh-insert :
    (f : ControlTask → ℕ) (t : ControlTask) (l : List ControlTask)
    → weigh f (insert t l) ≡ f t + weigh f l
weigh-insert f t [] = refl
weigh-insert f t (x ∷ l) = elim (Bool-cases (comes_first t x)) [
  | inl first ↦ rw first refl
  | inr later ↦ rw later (omega (arith, weigh-insert f t l))
]

merged-Merges : Merges merged
merged-Merges f l [] = omega arith
merged-Merges f l (t ∷ m) = omega (arith, merged-Merges f (insert t l) m, weigh-insert f t l)

abbrev peer : Peer
peer = record {
  type = session_normal;
  statsn = λ c. 9;
  expcmdsn = 5;
  maxcmdsn = 300;
  pool_state = pool_normal;
  attrs = (default_time2wait, attr_number 2) ∷ [];
  connections = [];
  sendtask = [];
}

abbrev nop_out : ControlReq
nop_out = record {
  op_code = 0;
  final = true;
  immediate_cmd = true;
  itt = 70;
  tag = rsvd_task_tag;
  hlength = 0;
  dlength = 0;
  lun = 0;
  code = 0;
  cid = 0;
}

abbrev logout : ControlReq
logout = record nop_out { op_code = 6; itt = 71 }

abbrev pinged : Peer
pinged = record peer {
  statsn = λ c. if c == 4 then 10 else 9;
  sendtask =
      send_nop_in (record { fd = 4; itt = 70; statsn = 9; expcmdsn = 5; maxcmdsn = 300 })
        rsvd_task_tag
      ∷ [];
}

abbrev left : Peer
left = record pinged {
  statsn = λ c. if c == 3 then 10 else pinged.statsn c;
  sendtask =
      send_logout (record { fd = 3; itt = 71; statsn = 9; expcmdsn = 5; maxcmdsn = 300 }) 0 2 2
        ∷ pinged.sendtask
      ++ end_reactor ∷ [];
}

ping : handle_control merged 144 limits 10 [] 4 nop_out peer ≡ some (true, pinged)
unfolding handle_control sstoraged.Counter.next_sn
ping = refl

leave : handle_control merged 144 limits 10 [] 3 logout pinged ≡ some (true, left)
unfolding handle_control sstoraged.Counter.next_sn key_code
leave = refl

Controls-Numbered_example : (k : ℕ) × Numbered 4 k peer left
Controls-Numbered_example =
    Controls-Numbered merged merged-Merges 144 limits peer left
      (controls_more pinged left 10 [] 3 logout true
        (controls_more peer pinged 10 [] 4 nop_out true controls_none ping) leave)
      4

handle_control-Numbered_example :
    StepNumbered 3 4 pinged (handle_control merged 144 limits 10 [] 3 logout pinged)
handle_control-Numbered_example =
    handle_control-Numbered merged merged-Merges 144 limits 10 [] 3 4 logout pinged
