-- ===== src/Tests/DispatchCases.antt =====
-- A session with two handlers and three tokens, two queued tasks, and a map with one connection.
use sstoraged.Common.{ℕ, ◌+◌, ◌≡◌, Bool, ltb, if◌then◌else◌, List, [], ◌∷◌, ◌++◌}
use sstoraged.Dispatch.{do_work, Outcome, outcome_done, outcome_again}
use sstoraged.Dispatch.Work.{Accepts, Stops, do_work_lem}

-- Tokens by their opcodes; a handler counts, and fails at the third.
abbrev op_code : ℕ → ℕ
op_code t = t

abbrev protos : ℕ → List ℕ
protos s = 1 ∷ 5 ∷ []

abbrev handle : ℕ → ℕ → Bool × ℕ
handle t s = (ltb s 2, s + 1)

abbrev clean_up : ℕ → ℕ
clean_up s = 0

abbrev tokens : List ℕ
tokens = 1 ∷ 5 ∷ 1 ∷ []

do_work_lem_example :
    (handled : List ℕ) × (left : List ℕ) × (middle : ℕ) × (tokens ≡ handled ++ left)
    × Accepts op_code protos handle clean_up handled 0 middle
    × ((do_work op_code protos handle clean_up tokens 0).1 ≡ left)
    × Stops op_code protos handle clean_up left middle
        (do_work op_code protos handle clean_up tokens 0).0
        (do_work op_code protos handle clean_up tokens 0).2
do_work_lem_example = do_work_lem op_code protos handle clean_up tokens 0

abbrev run : ℕ → ℕ → Outcome × ℕ
run t s = if ltb s t then (outcome_done, s + 1) else (outcome_again, s)

abbrev connections : List (ℕ × ℕ)
connections = (4, 40) ∷ []
