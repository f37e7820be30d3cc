-- ===== src/AioWriter/Ends.antt =====
-- How doListenerWork counts the ends of the writes.
use sstoraged.Common.{
  ℕ, zero, suc, ◌+◌, ◌-◌, ◌^◌, ◌≤◌, ◌<◌, ◌≡◌, refl, sym, subst, ◌∙◌, ap, Bool, true, false, ltb,
  ◌==◌, if◌then◌else◌, Bool-cases, inl, inr, Option, none, some, List, [], ◌∷◌, length, All, arith,
  sub64,
}
use sstoraged.Cache.{WriteCache, front, pop}
use sstoraged.Limitter.{PoolState}
use sstoraged.Counter.{decrement}
use sstoraged.AioWriter.{AioWork, clean_front, pop_segment, count_down, end_one, end_all}

abbrev pub sum : List ℕ → ℕ
sum [] = 0
sum (n ∷ l) = n + sum l

-- n taken off the sizes from the front; a size that has nothing left is gone.
abbrev pub spent : ℕ → List ℕ → List ℕ
spent n [] = []
spent n (s ∷ l) = if ltb n s then (s - n) ∷ l else spent (n - s) l

-- The cache after its front has been popped n times.
abbrev pub popped : ℕ → WriteCache → Option WriteCache
popped zero c = some c
popped (suc n) c = elim (front c) [ none ↦ none | some (p, c') ↦ popped n (pop c') ]

abbrev pub all_written : ℕ → List Bool
all_written zero = []
all_written (suc n) = true ∷ all_written n

-- The total is that of the sizes, which are not 0, and the cache has as many segments.
pub record Underway (w : AioWork) : Type 0 where
  pub counted : w.iocbs_total ≡ sum w.iocbs_sizes
  pub positive : All (λ n. 0 < n) w.iocbs_sizes
  pub small : sum w.iocbs_sizes < 2 ^ 63
  pub last : WriteCache
  pub enough : popped (length w.iocbs_sizes) w.cache ≡ some last

spent_one : (n : ℕ) (s : ℕ) (l : List ℕ) → 1 < s → spent n ((s - 1) ∷ l) ≡ spent (suc n) (s ∷ l)
spent_one n s l h = elim (Bool-cases (ltb n (s - 1))) [
  | inl within ↦
      let also : ltb (suc n) s ≡ true = ground (arith, within, h) in
      let same : s - 1 - n ≡ s - suc n = omega arith in rw (within, also, same)
  | inr past ↦
      let also : ltb (suc n) s ≡ false = ground (arith, past, h) in
      let same : n - (s - 1) ≡ suc n - s = omega (arith, h) in rw (past, also, same)
]

spent_last : (n : ℕ) (s : ℕ) (l : List ℕ) → s ≡ 1 → spent n l ≡ spent (suc n) (s ∷ l)
spent_last n s l h =
    let past : ltb (suc n) s ≡ false = ground (arith, h) in
    let same : suc n - s ≡ n = omega (arith, h) in rw (past, same)

spent_none : (l : List ℕ) → All (λ n. 0 < n) l → spent 0 l ≡ l
spent_none [] a = refl
spent_none (s ∷ l) a =
    let within : ltb 0 s ≡ true = ground (arith, a.0) in
    let same : s - 0 ≡ s = omega arith in rw (within, same)

front_cases :
    (n : ℕ) (c last : WriteCache) (r : Option (Option ℕ × WriteCache))
    → front c ≡ r
    → elim r as (λ q. Option WriteCache) [ none ↦ none | some (p, c') ↦ popped n (pop c') ]
      ≡ some last
    → (p : Option ℕ) × (c' : WriteCache) × (front c ≡ some (p, c'))
      × (popped n (pop c') ≡ some last)
front_cases n c last none e h = absurd (ground (arith, h))
front_cases n c last (some (p, c')) e h = (p, c', e, h)

front_there :
    (n : ℕ) (c last : WriteCache)
    → popped (suc n) c ≡ some last
    → (p : Option ℕ) × (c' : WriteCache) × (front c ≡ some (p, c'))
      × (popped n (pop c') ≡ some last)
front_there n c last h = front_cases n c last (front c) refl h

popped_front :
    (k : ℕ) (c : WriteCache) (p : Option ℕ) (c' last : WriteCache)
    → front c ≡ some (p, c')
    → popped k (pop c') ≡ some last
    → popped (suc k) c ≡ some last
popped_front k c p c' last f h = rw (popped, f) h

module _ (pool : ℕ → PoolState) where
  -- What one event does.
  record Ended (w : AioWork) (r : Option (Bool × AioWork)) : Type 0 where
    after : AioWork
    result : r ≡ some (true, after)
    underway : Underway after
    less : sum after.iocbs_sizes + 1 ≡ sum w.iocbs_sizes
    spends : (n : ℕ) → spent n after.iocbs_sizes ≡ spent (suc n) w.iocbs_sizes
    total : after.iocbs_total + 1 ≡ w.iocbs_total
    pops : ℕ
    lengths : pops + length after.iocbs_sizes ≡ length w.iocbs_sizes
    caches :
        (k : ℕ) (c : WriteCache)
        → popped k after.cache ≡ some c
        → popped (pops + k) w.cache ≡ some c

  end_first :
      (n : ℕ) (w w' : AioWork)
      → end_one pool true w ≡ some (true, w')
      → end_all pool (all_written (suc n)) w ≡ end_all pool (all_written n) w'
  unfolding end_all
  end_first n w w' e = rw (end_all, e)

  -- An event of a segment that has others.
  inside_result :
      (w : AioWork) (s : ℕ) (l : List ℕ)
      → w.iocbs_sizes ≡ s ∷ l
      → (sub64 s 1 == 0) ≡ false
      → end_one pool true w ≡ some (true, count_down (record w { iocbs_sizes = sub64 s 1 ∷ l }))
  unfolding end_one
  inside_result w s l e h = rw (end_one, e, h)

  last_result :
      (w w' : AioWork) (s : ℕ) (l : List ℕ)
      → w.iocbs_sizes ≡ s ∷ l
      → (sub64 s 1 == 0) ≡ true
      → pop_segment pool (record w { iocbs_sizes = l }) ≡ some w'
      → end_one pool true w ≡ some (true, count_down w')
  unfolding end_one
  last_result w w' s l e h p = rw (end_one, e, h, p)

  pops_front :
      (w : AioWork) (p : Option ℕ) (c : WriteCache)
      → front w.cache ≡ some (p, c)
      → pop_segment pool w ≡ some (clean_front pool c w)
  pops_front w p c f = rw (pop_segment, f)

  counts_down : (total rest : ℕ) → total ≡ suc rest → (decrement 0 total).0 ≡ rest
  unfolding decrement
  counts_down total rest e = ground (arith, e)

  at_sizes :
      (w : AioWork) (l : List ℕ)
      → Underway w
      → 0 < sum w.iocbs_sizes
      → w.iocbs_sizes ≡ l
      → Ended w (end_one pool true w)
  at_sizes w [] u h e = absurd (omega (arith, h, ap sum e))
  at_sizes w (s ∷ l) u h e =
      let pos = subst (λ q. All (λ n. 0 < n) q) e u.positive in
      let sums : sum w.iocbs_sizes ≡ s + sum l = ap sum e in
      let len : length w.iocbs_sizes ≡ suc (length l) = ap length e in
      let enough = ap (λ (n : ℕ). popped n w.cache) (sym len) ∙ u.enough in
      let down =
        counts_down w.iocbs_total (s - 1 + sum l) (omega (arith, u.counted, sums, pos.0)) in
      let one : sub64 s 1 ≡ s - 1 = ground (arith, pos.0, sums, u.small) in
      elim (Bool-cases (s == 1)) [
        | inl single ↦
            let (p, c, f, more) = front_there (length l) w.cache u.last enough in
            let is_one : s ≡ 1 = ground (arith, single) in
            let zero_left : (sub64 s 1 == 0) ≡ true = ground (arith, one, is_one) in
            record {
              after = count_down (clean_front pool c (record w { iocbs_sizes = l }));
              result =
                  last_result w (clean_front pool c (record w { iocbs_sizes = l })) s l e zero_left
                    (pops_front (record w { iocbs_sizes = l }) p c f);
              underway = record {
                counted = down ∙ omega (arith, is_one);
                positive = pos.1;
                small = omega (arith, u.small, sums);
                last = u.last;
                enough = more;
              };
              less = omega (arith, sums, is_one);
              spends = λ n. spent_last n s l is_one ∙ ap (spent (suc n)) (sym e);
              total = omega (arith, down, u.counted, sums, pos.0);
              pops = 1;
              lengths = omega (arith, len);
              caches = λ k c' q.
                  let next : 1 + k ≡ suc k = omega arith in
                  ap (λ (m : ℕ). popped m w.cache) next ∙ popped_front k w.cache p c c' f q;
            }
        | inr many ↦
            let some_left : (sub64 s 1 == 0) ≡ false = ground (arith, one, many, pos.0) in
            let over_one : 1 < s = ground (arith, many, pos.0) in
            record {
              after = count_down (record w { iocbs_sizes = sub64 s 1 ∷ l });
              result = inside_result w s l e some_left;
              underway = record {
                counted = down ∙ omega (arith, one);
                positive = (omega (arith, one, over_one), pos.1);
                small = omega (arith, u.small, sums, one);
                last = u.last;
                enough = enough;
              };
              less = omega (arith, sums, one, over_one);
              spends = λ n.
                  ap (λ (m : ℕ). spent n (m ∷ l)) one
                  ∙ (spent_one n s l over_one ∙ ap (spent (suc n)) (sym e));
              total = omega (arith, down, u.counted, sums, pos.0);
              pops = 0;
              lengths = omega (arith, len);
              caches = λ k c' q.
                  let none_yet : 0 + k ≡ k = omega arith in
                  ap (λ (m : ℕ). popped m w.cache) none_yet ∙ q;
            }
      ]

  step-Ended : (w : AioWork) → Underway w → 0 < sum w.iocbs_sizes → Ended w (end_one pool true w)
  step-Ended w u h = at_sizes w w.iocbs_sizes u h refl

  -- The events of one call of io_getevents, all of them complete writes and no more than are under way:
  -- they are taken off the sizes from the front, whatever segments they belong to; the total follows,
  -- and the front of the cache is popped once for each size that is used up.
  pub end_all-spent :
      (n : ℕ) (w : AioWork)
      → Underway w
      → n ≤ sum w.iocbs_sizes
      → (w' : AioWork) × (end_all pool (all_written n) w ≡ some (true, w'))
        × Underway w'
        × (w'.iocbs_sizes ≡ spent n w.iocbs_sizes)
        × (w'.iocbs_total + n ≡ w.iocbs_total)
        × (k : ℕ) × (k + length w'.iocbs_sizes ≡ length w.iocbs_sizes)
        × (popped k w.cache ≡ some w'.cache)
  unfolding end_all
  end_all-spent zero w u h =
      (w, refl, u, sym (spent_none w.iocbs_sizes u.positive), omega arith, 0, omega arith, refl)
  end_all-spent (suc n) w u h =
      let m = step-Ended w u (omega (arith, h)) in
      let (w', e, u', sizes, all, k, lengths, pops) =
        end_all-spent n m.after m.underway (omega (arith, h, m.less)) in
      (
        w',
        end_first n w m.after m.result ∙ e,
        u',
        sizes ∙ m.spends n,
        omega (arith, all, m.total),
        m.pops + k,
        omega (arith, lengths, m.lengths),
        m.caches k w'.cache pops,
      )
