-- ===== src/Limitter/CmdWindow.antt =====
-- The command window that advanceCMDSNs leaves.
use sstoraged.Common.{
  ℕ, zero, suc, ◌+◌, ◌-◌, ◌*◌, ◌/◌, ◌%◌, ◌^◌, ◌≤◌, ◌<◌, ◌≡◌, refl, ◌∙◌, max, none, some, arith, ltb,
  ltb→lt, Bool-cases, Bool, true, false, List, inl, inr,
}
use sstoraged.Counter.{next_sn}
use sstoraged.Counter.Laws.{next_sn-lt, next_sn_lem}
use sstoraged.Limitter.{
  LinearLimitter, make_limitter, cmd_queue_size, pool_normal, pool_soft, pool_hard, Window, settle,
  wanted, widen, get_cmd_queue, advance_cmdsns,
}
use sstoraged.Limitter.Range.{IsSpread, get_y_range, get_y_wraps}

module _ (want expcmdsn : ℕ) where
  -- One call of the counter makes a window that is not full larger by one.
  queue-next :
      (m : ℕ)
      → expcmdsn < 2 ^ 32
      → m < 2 ^ 32
      → get_cmd_queue expcmdsn m < 2 ^ 32 - 1
      → get_cmd_queue expcmdsn (next_sn m).1 ≡ get_cmd_queue expcmdsn m + 1
  queue-next m he hm hq = omega (arith, next_sn_lem m hm)

  -- As much fuel as the window lacks, and one more, ends the loop.
  widen_lem :
      (fuel m : ℕ)
      → want < 2 ^ 32
      → expcmdsn < 2 ^ 32
      → m < 2 ^ 32
      → 0 < fuel
      → want < fuel + get_cmd_queue expcmdsn m
      → (r : ℕ) × (widen fuel want expcmdsn m ≡ some r)
        × (r < 2 ^ 32)
        × (get_cmd_queue expcmdsn r ≡ max want (get_cmd_queue expcmdsn m))
  unfolding widen
  widen_lem zero m hw he hm hp hf = absurd (omega arith)
  widen_lem (suc fuel) m hw he hm hp hf = elim (Bool-cases (ltb (get_cmd_queue expcmdsn m) want)) [
    | inl less ↦
        let q = queue-next m he hm (ground arith) in
        let rest =
          widen_lem fuel (next_sn m).1 hw he (next_sn-lt m hm) (ground arith) (ground arith) in
        (rest.0, rw (less, widen) rest.1, rest.2, rest.3 ∙ omega (arith, q, ltb→lt _ _ less))
    | inr done ↦ (m, rw (done, widen), hm, ground arith)
  ]

  -- A wanted size of 2^32 or more is never reached.
  widen_endless : (fuel m : ℕ) → 2 ^ 32 ≤ want → widen fuel want expcmdsn m ≡ none
  unfolding widen
  widen_endless zero m h = refl
  widen_endless (suc fuel) m h = ground (arith, widen_endless fuel (next_sn m).1 h)

-- The state that advanceCMDSNs is to leave.
pub record Advanced (l : LinearLimitter) (poolnum want e m : ℕ) (w : Window) : Type 0 where
  pub exp_next : w.expcmdsn ≡ (e + 1) % 2 ^ 32
  pub queue : get_cmd_queue w.expcmdsn w.maxcmdsn ≡ max want (get_cmd_queue ((e + 1) % 2 ^ 32) m)
  pub hard : l.x2 < poolnum → w.pool_state ≡ pool_hard
  pub soft : l.x1 < poolnum → poolnum ≤ l.x2 → w.pool_state ≡ pool_soft
  pub normal : poolnum ≤ l.x1 → poolnum ≤ l.x2 → w.pool_state ≡ pool_normal
  pub waits : poolnum ≤ l.x2 → w.waited ≡ none

settle-Advanced :
    (l : LinearLimitter) (poolnum : ℕ) (sizes : List ℕ) (e m want r : ℕ)
    → e < 2 ^ 32
    → get_cmd_queue (next_sn e).1 r ≡ max want (get_cmd_queue (next_sn e).1 m)
    → Advanced l poolnum want e m (settle l poolnum sizes (next_sn e).1 r)
unfolding settle
settle-Advanced l poolnum sizes e m want r he q = record {
  exp_next = next_sn_lem e he;
  queue = rw (← next_sn_lem e he) q;
  hard = λ h. ground arith;
  soft = λ h k. ground arith;
  normal = λ h k. ground arith;
  waits = λ h. ground arith;
}

module _ (fuel : ℕ) (l : LinearLimitter) (poolnum : ℕ) (sizes : List ℕ) (e m : ℕ) where
  advance_cmdsns-settle :
      (discovery : Bool) (want r : ℕ)
      → wanted l discovery poolnum ≡ some want
      → widen fuel want (next_sn e).1 m ≡ some r
      → advance_cmdsns fuel l discovery poolnum sizes e m
        ≡ some (settle l poolnum sizes (next_sn e).1 r)
  unfolding advance_cmdsns
  advance_cmdsns-settle true want r h k = ground (arith, h, k)
  advance_cmdsns-settle false want r h k = rw (h, k, advance_cmdsns)

  advance_cmdsns-wanted :
      (discovery : Bool) (want : ℕ)
      → wanted l discovery poolnum ≡ some want
      → want < fuel
      → fuel < 2 ^ 32
      → e < 2 ^ 32
      → m < 2 ^ 32
      → (w : Window) × (advance_cmdsns fuel l discovery poolnum sizes e m ≡ some w)
        × Advanced l poolnum want e m w
  advance_cmdsns-wanted discovery want h hf hw he hm =
      let (r, widened, small, queue) =
        widen_lem want (next_sn e).1 fuel m (omega arith) (next_sn-lt e he) hm (omega arith)
          (omega arith) in
      (
        settle l poolnum sizes (next_sn e).1 r,
        advance_cmdsns-settle discovery want r h widened,
        settle-Advanced l poolnum sizes e m want r he queue,
      )

-- The window that the limit asks for: one command in a discovery session; else all of the queue size
-- below the soft limit, one command from the hard limit on, and between them one less for each of the
-- equal steps that the pool is past the soft limit.
pub record Asked (x1 x2 : ℕ) (discovery : Bool) (poolnum want : ℕ) : Type 0 where
  pub some_want : 1 ≤ want
  pub most : want ≤ cmd_queue_size
  pub in_discovery : discovery ≡ true → want ≡ 1
  pub below : discovery ≡ false → poolnum < x1 → want ≡ cmd_queue_size
  pub above : discovery ≡ false → x2 ≤ poolnum → want ≡ 1
  pub between :
      discovery ≡ false
      → x1 ≤ poolnum
      → poolnum < x2
      → want ≡ cmd_queue_size - (poolnum - x1) / ((x2 - x1) / (cmd_queue_size - 1))

-- Where the limits are spread and the numbers are of 32 bits, advanceCMDSNs ends within 144 rounds:
-- ExpCmdSN has counted by one modulo 2^32, the command window is as large as the limit asks for or
-- as it was, whichever is more (at least 1), and the pool state is the one of the pool's size.
pub advance_cmdsns_total :
    (x1 x2 : ℕ) (discovery : Bool) (poolnum : ℕ) (sizes : List ℕ) (e m : ℕ)
    → IsSpread x1 x2
    → e < 2 ^ 32
    → m < 2 ^ 32
    → (want : ℕ) × (w : Window) × (advance_cmdsns 144
          (make_limitter x1 x2)
          discovery
          poolnum
          sizes
          e
          m
        ≡ some w)
      × Asked x1 x2 discovery poolnum want
      × Advanced (make_limitter x1 x2) poolnum want e m w
advance_cmdsns_total x1 x2 true poolnum sizes e m s he hm =
    let r =
      advance_cmdsns-wanted 144 (make_limitter x1 x2) poolnum sizes e m true 1 refl (omega arith)
        (omega arith) he hm in
    (
      1,
      r.0,
      r.1,
      record {
        some_want = omega arith;
        most = omega arith;
        in_discovery = λ _. refl;
        below = λ d h. absurd (ground (arith, d));
        above = λ d h. refl;
        between = λ d h k. absurd (ground (arith, d));
      },
      r.2,
    )
advance_cmdsns_total x1 x2 false poolnum sizes e m s he hm =
    let y = get_y_range x1 x2 poolnum s in
    let r =
      advance_cmdsns-wanted 144 (make_limitter x1 x2) poolnum sizes e m false y.0 y.1
        (omega (arith, y.3)) (omega arith) he hm in
    (
      y.0,
      r.0,
      r.1,
      record {
        some_want = y.2;
        most = y.3;
        in_discovery = λ d. absurd (ground (arith, d));
        below = λ d h. y.4 h;
        above = λ d h. y.5 h;
        between = λ d h k. y.6 h k;
      },
      r.2,
    )

-- In a normal session whose pool is more than 143 steps past the soft limit and below the hard one,
-- the loop that raises MaxCmdSN does not end, whatever the fuel.
pub advance_cmdsns_endless :
    (fuel x1 x2 poolnum : ℕ) (sizes : List ℕ) (e m : ℕ)
    → x2 < 2 ^ 63
    → 142 ≤ x2 - x1
    → poolnum < x2
    → x1 + 144 * ((x2 - x1) / 142) ≤ poolnum
    → advance_cmdsns fuel (make_limitter x1 x2) false poolnum sizes e m ≡ none
unfolding advance_cmdsns
advance_cmdsns_endless fuel x1 x2 poolnum sizes e m w d h far =
    let y = get_y_wraps x1 x2 poolnum w d h far in
    rw (y.1, widen_endless y.0 (next_sn e).1 fuel m (omega (arith, y.2)), advance_cmdsns)
