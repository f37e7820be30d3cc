-- ===== src/Tests/LimitCases.antt =====
-- The counters and the limitter at concrete numbers. 1019 and 2039 are the limits, in buffers of
-- 131616 bytes, of a soft limit of 128 MB and a hard limit of 256 MB.
use sstoraged.Common.{ℕ, ◌≡◌, false, none, some, [], ◌∷◌, arith}
use sstoraged.Limitter.{Window, make_limitter, advance_cmdsns}
use sstoraged.Limitter.Range.{IsSpread}
use sstoraged.Limitter.CmdWindow.{Asked, Advanced, advance_cmdsns_total, advance_cmdsns_endless}

abbrev pub spread : IsSpread 1000 2420
spread = record { fits = omega arith; step = omega arith; reach = omega arith }

advance_cmdsns_total_example :
    (want : ℕ) × (w : Window) × (advance_cmdsns 144
        (make_limitter 1000 2420)
        false
        1500
        (4 ∷ 7 ∷ [])
        5
        6
      ≡ some w)
    × Asked 1000 2420 false 1500 want
    × Advanced (make_limitter 1000 2420) 1500 want 5 6 w
advance_cmdsns_total_example =
    advance_cmdsns_total 1000 2420 false 1500 (4 ∷ 7 ∷ []) 5 6 spread (omega arith) (omega arith)

advance_cmdsns_endless_example :
    advance_cmdsns 1000 (make_limitter 1019 2039) false 2027 [] 5 6 ≡ none
advance_cmdsns_endless_example =
    advance_cmdsns_endless 1000 1019 2039 2027 [] 5 6 (omega arith) (omega arith) (omega arith)
      (omega arith)
