-- ===== src/Limitter.antt =====
-- include/limitter.h, and the command window of a session that it drives: getCMDQueue
-- (include/session.h), findLargestWriteCache and advanceCMDSNs (src/session.cpp).
-- The loop that raises MaxCmdSN has fuel; Limitter/CmdWindow shows how much is enough.
pub mod Range
pub mod CmdWindow
use sstoraged.Common.{
  ℕ, zero, suc, ◌+◌, ◌-◌, ◌/◌, ◌%◌, ◌^◌, Bool, true, false, ltb, leb, ◌==◌, if◌then◌else◌, Option,
  none, some, List, [], ◌∷◌, sub64, sub32, add32,
}
use sstoraged.Counter.{next_sn}

-- iSCSISession::CMD_QUEUE_SIZE
abbrev pub cmd_queue_size : ℕ
cmd_queue_size = 0x8f

pub record LinearLimitter : Type 0 where
  pub x1 : ℕ
  pub x2 : ℕ
  pub ainv : ℕ

-- The constructor, over size_t.
abbrev pub make_limitter : ℕ → ℕ → LinearLimitter
make_limitter x1 x2 = record { x1 = x1; x2 = x2; ainv = sub64 x2 x1 / (cmd_queue_size - 1) }

-- `getY`, over size_t; `none` is the machine's division by zero.
pub get_y : LinearLimitter → ℕ → Option ℕ
get_y l x =
    if ltb x l.x1
    then some cmd_queue_size
    else if leb l.x2 x
    then some 1
    else if l.ainv == 0
    then none
    else some (sub64 cmd_queue_size (sub64 x l.x1 / l.ainv))

-- `getCMDQueue`: the difference is of uint32_t.
abbrev pub get_cmd_queue : ℕ → ℕ → ℕ
get_cmd_queue expcmdsn maxcmdsn = add32 (sub32 maxcmdsn expcmdsn) 1

-- `while(getCMDQueue() < queuesize_wil) maxcmdsn_gen();`: `none` when the fuel runs out.
pub widen : ℕ → ℕ → ℕ → ℕ → Option ℕ
widen zero want expcmdsn maxcmdsn = none
widen (suc fuel) want expcmdsn maxcmdsn =
    let rest = widen fuel want expcmdsn (next_sn maxcmdsn).1 in
    if ltb (get_cmd_queue expcmdsn maxcmdsn) want then rest else some maxcmdsn

-- pool_state_t
pub data PoolState : Type 0 where
  pool_normal pool_soft pool_hard : PoolState

-- `findLargestWriteCache`, over the sizes of the session's caches: the place of the one returned.
largest_from : ℕ → ℕ → Option ℕ → List ℕ → Option ℕ
largest_from i maxsize ret [] = ret
largest_from i maxsize ret (size ∷ sizes) =
    largest_from (i + 1) (if ltb maxsize size then size else maxsize)
      (if ltb maxsize size then some i else ret) sizes

pub find_largest_write_cache : List ℕ → Option ℕ
unfolding largest_from
find_largest_write_cache sizes = largest_from 0 0 none sizes

-- What advanceCMDSNs changes. `waited` is the cache on which `waitTillDone` is called.
pub record Window : Type 0 where
  pub expcmdsn : ℕ
  pub maxcmdsn : ℕ
  pub pool_state : PoolState
  pub waited : Option ℕ

-- The pool status transition at the end of advanceCMDSNs.
pub settle : LinearLimitter → ℕ → List ℕ → ℕ → ℕ → Window
settle l poolnum sizes expcmdsn maxcmdsn = record {
  expcmdsn = expcmdsn;
  maxcmdsn = maxcmdsn;
  pool_state =
      if ltb l.x2 poolnum then pool_hard else if ltb l.x1 poolnum then pool_soft else pool_normal;
  waited = if ltb l.x2 poolnum then find_largest_write_cache sizes else none;
}

-- `queuesize_wil`
abbrev pub wanted : LinearLimitter → Bool → ℕ → Option ℕ
wanted l discovery poolnum = if discovery then some 1 else get_y l poolnum

-- `advanceCMDSNs`: `none` is a division by zero, or a loop that used up its fuel.
pub advance_cmdsns : ℕ → LinearLimitter → Bool → ℕ → List ℕ → ℕ → ℕ → Option Window
advance_cmdsns fuel l discovery poolnum sizes expcmdsn maxcmdsn =
    elim (wanted l discovery poolnum) [
      | none ↦ none
      | some want ↦ elim (widen fuel want (next_sn expcmdsn).1 maxcmdsn) [
        | none ↦ none
        | some m ↦ some (settle l poolnum sizes (next_sn expcmdsn).1 m)
      ]
    ]
