-- ===== src/Dispatch/Work.antt =====
-- What doWork and invoke have done when they return.
use sstoraged.Common.{
  ℕ, ◌≡◌, refl, ap, Bool, true, false, List, [], ◌∷◌, ◌++◌, ◌⊎◌, inl, inr, Bool-cases,
}
use sstoraged.Dispatch.{
  member, Status, status_ok, status_esrch, status_eio, do_work, Outcome, outcome_done,
  outcome_again, outcome_thrown, invoke,
}

module _ {T S : Type 0} (op_code : T → ℕ) (protos : S → List ℕ) (handle : T → S → Bool × S)
    (clean_up : S → S) where
  -- Tokens that are all accepted, from one state to another.
  abbrev pub Accepts : List T → S → S → Type 0
  Accepts [] s s' = s ≡ s'
  Accepts (t ∷ ts) s s' =
      (member (op_code t) (protos s) ≡ true)
      × ((handle t s).0 ≡ true)
      × Accepts ts (handle t s).1 s'

  -- Why the loop ends at a list of tokens.
  abbrev pub Stops : List T → S → Status → S → Type 0
  Stops [] s status s' = (status ≡ status_ok) × (s' ≡ s)
  Stops (t ∷ ts) s status s' =
      ((status ≡ status_esrch) × (member (op_code t) (protos s) ≡ false) × (s' ≡ clean_up s))
      ⊎ ((status ≡ status_eio)
          × (member (op_code t) (protos s) ≡ true)
          × ((handle t s).0 ≡ false)
          × (s' ≡ clean_up (handle t s).1))

  -- doWork returns for every queue of tokens. It has handled a prefix of it in order, each token by
  -- a registered handler that accepted it; it returns 0 if that is all of it, and else cleans up at
  -- the first token without a handler (-ESRCH) or whose handler failed (-EIO), which stays in front.
  pub do_work_lem :
      (ts : List T) (s : S)
      → (handled : List T) × (left : List T) × (middle : S) × (ts ≡ handled ++ left)
        × Accepts handled s middle
        × ((do_work op_code protos handle clean_up ts s).1 ≡ left)
        × Stops left middle
            (do_work op_code protos handle clean_up ts s).0
            (do_work op_code protos handle clean_up ts s).2
  unfolding do_work
  do_work_lem [] s = ([], [], s, refl, refl, refl, (refl, refl))
  do_work_lem (t ∷ ts) s = elim (Bool-cases (member (op_code t) (protos s))) [
    | inr e ↦ rw e ([], t ∷ ts, s, refl, refl, refl, inl (refl, e, refl))
    | inl e ↦ elim (Bool-cases (handle t s).0) [
      | inr f ↦ rw (e, f) ([], t ∷ ts, s, refl, refl, refl, inr (refl, e, f, refl))
      | inl f ↦
          let (handled, left, middle, p, a, q, r) = do_work_lem ts (handle t s).1 in
          rw (e, f) (t ∷ handled, left, middle, ap (λ l. t ∷ l) p, (e, f, a), q, r)
    ]
  ]

Outcome-cases : (o : Outcome) → (o ≡ outcome_done) ⊎ ((o ≡ outcome_again) ⊎ (o ≡ outcome_thrown))
Outcome-cases outcome_done = inl refl
Outcome-cases outcome_again = inr (inl refl)
Outcome-cases outcome_thrown = inr (inr refl)

module _ {T S : Type 0} (run : T → S → Outcome × S) where
  -- Tasks that are all done, from one state to another.
  abbrev pub Runs : List T → S → S → Type 0
  Runs [] s s' = s ≡ s'
  Runs (t ∷ ts) s s' = ((run t s).0 ≡ outcome_done) × Runs ts (run t s).1 s'

  abbrev pub Waits : List T → S → Bool × List T × S → Type 0
  Waits [] s r = r ≡ (true, [], s)
  Waits (t ∷ ts) s r =
      (((run t s).0 ≡ outcome_again) × (r ≡ (true, t ∷ ts, (run t s).1)))
      ⊎ (((run t s).0 ≡ outcome_thrown) × (r ≡ (false, [], (run t s).1)))

  -- invoke returns for every queue of tasks. It has run a prefix of it to the end, in order; the
  -- first task that is not done stays in front of the rest if it is to be tried again, and if it
  -- throws the queue is emptied and the call fails.
  pub invoke_lem :
      (ts : List T) (s : S)
      → (done : List T) × (left : List T) × (middle : S) × (ts ≡ done ++ left)
        × Runs done s middle
        × Waits left middle (invoke run ts s)
  unfolding invoke
  invoke_lem [] s = ([], [], s, refl, refl, refl)
  invoke_lem (t ∷ ts) s = elim (Outcome-cases (run t s).0) [
    | inl e ↦
        let (done, left, middle, p, a, q) = invoke_lem ts (run t s).1 in
        rw (invoke, e) (t ∷ done, left, middle, ap (λ l. t ∷ l) p, (e, a), q)
    | inr (inl e) ↦ rw (invoke, e) ([], t ∷ ts, s, refl, refl, inl (e, refl))
    | inr (inr e) ↦ rw (invoke, e) ([], t ∷ ts, s, refl, refl, inr (e, refl))
  ]
