-- ===== src/DiskWriter/Order.antt =====
-- src/diskwriter.cpp: the order in which doWork writes the segments of a cache.
use sstoraged.Common.{
  ℕ, zero, suc, ◌≤◌, ◌<◌, ◌≡◌, refl, ap, ◌∙◌, Bool, true, false, if◌then◌else◌, Option, none, some,
  List, [], ◌∷◌, ◌++◌, length, arith, Bool-cases, inl, inr,
}
use sstoraged.Volume.{LowHandle}
use sstoraged.Limitter.{PoolState}
use sstoraged.Cache.{WriteSegment, WriteCache, find, erase, is_copy, skip_copies, front, pop}
use sstoraged.DiskWriter.{
  Pwrite, WriteCall, Part, Work, end_round, after_segment, write_segment, write_loop, do_work,
}

-- The originals of a FIFO, in its order.
abbrev pub pending : List ℕ → List WriteSegment → List WriteSegment
pending [] l = []
pending (p ∷ ps) l =
    let rest = pending ps (erase p l) in
    elim (find p l) [ none ↦ [] | some s ↦ if s.copy then rest else s ∷ rest ]

-- Every entry is in the index when its turn comes, and the last one is an original.
abbrev pub Closed : List ℕ → List WriteSegment → Type 0
Closed [] l = Unit
Closed (p ∷ ps) l =
    (s : WriteSegment) × ((find p l ≡ some s)
      × ((s.copy ≡ true → 0 < length ps) × Closed ps (erase p l)))

-- What `_front` and `pop` do to such a FIFO.
record Skipped (ps : List ℕ) (l : List WriteSegment) : Type 0 where
  first : ℕ
  rest : List ℕ
  index : List WriteSegment
  segment : WriteSegment
  result : skip_copies ps l ≡ some (first, first ∷ rest, index)
  found : find first index ≡ some segment
  closed : Closed rest (erase first index)
  before : pending ps l ≡ segment ∷ pending rest (erase first index)
  after : pending (first ∷ rest) index ≡ segment ∷ pending rest (erase first index)
  shorter : length rest < length ps

skip_copies-Skipped :
    (ps : List ℕ) (l : List WriteSegment) → Closed ps l → 0 < length ps → Skipped ps l
unfolding skip_copies is_copy
skip_copies-Skipped [] l c h = absurd (omega (arith, h))
skip_copies-Skipped (p ∷ ps) l (s, (f, (k, c))) h = elim (Bool-cases s.copy) [
  | inl e ↦
      let r = skip_copies-Skipped ps (erase p l) c (k e) in
      record {
        first = r.first;
        rest = r.rest;
        index = r.index;
        segment = r.segment;
        result = rw (skip_copies, is_copy, f, e) r.result;
        found = r.found;
        closed = r.closed;
        before = rw (f, e, pending) r.before;
        after = r.after;
        shorter = omega (arith, r.shorter);
      }
  | inr e ↦ record {
    first = p;
    rest = ps;
    index = l;
    segment = s;
    result = rw (skip_copies, is_copy, f, e) refl;
    found = f;
    closed = c;
    before = rw (f, e, pending) refl;
    after = rw (f, e, pending) refl;
    shorter = omega arith;
  }
]

module _ (outcomes : ℕ → List Pwrite) (head : ℕ → ℕ) (handles : List (ℕ × LowHandle)) where
  -- What a reader of the calls sees: whether all is written, how many calls of doWrite there were, those
  -- that succeeded, and the segments that are left.
  abbrev pub View : Type 0
  View = Option (Bool × ℕ × List WriteCall × List WriteSegment)

  abbrev pub view : Option (Bool × Work) → View
  view none = none
  view (some (ok, w)) = some (ok, w.made, w.calls, pending w.cache.fifo w.cache.index)

  -- The segments one after the other, until one fails.
  abbrev pub write_all : List WriteSegment → ℕ → List WriteCall → View
  write_all [] n calls = some (true, n, calls, [])
  write_all (s ∷ l) n calls = elim (write_segment outcomes head handles s n) [
    | none ↦ none
    | some (false, start, n', m) ↦ some (false, n', calls ++ m, s ∷ l)
    | some (true, start, n', m) ↦ write_all l n' (calls ++ m)
  ]

  front-Skipped :
      (fifo : List ℕ) (index : List WriteSegment) (next_ptr : ℕ) (r : Skipped fifo index)
      → (let c : WriteCache = record { fifo = fifo; index = index; next_ptr = next_ptr } in
          front c ≡ some (some r.first, record c { fifo = r.first ∷ r.rest; index = r.index }))
  unfolding front
  front-Skipped [] index next_ptr r = absurd (omega (arith, r.shorter))
  front-Skipped (p ∷ ps) index next_ptr r = rw (r.result, front) refl

  module _ (pool : ℕ → PoolState) where
    -- What is left to write, as the segments one after the other.
    abbrev Rest : Work → View
    Rest w = write_all (pending w.cache.fifo w.cache.index) w.made w.calls

    after_segment-view :
        (again : Work → Option (Bool × Work)) (w : Work) (c : WriteCache) (p : ℕ) (ps : List ℕ)
        (s : WriteSegment) (o : Part)
        → c.fifo ≡ p ∷ ps
        → pending c.fifo c.index ≡ s ∷ pending ps (erase p c.index)
        → ((v : Work)
            → v.cache.fifo ≡ ps
            → v.cache.index ≡ erase p c.index
            → view (end_round outcomes head handles pool again v) ≡ Rest v)
        → view (after_segment outcomes head handles pool again w c o) ≡ elim o [
          | none ↦ none
          | some (false, start, n, m) ↦
              some (false, n, w.calls ++ m, s ∷ pending ps (erase p c.index))
          | some (true, start, n, m) ↦ write_all (pending ps (erase p c.index)) n (w.calls ++ m)
        ]
    unfolding after_segment
    after_segment-view again w c p ps s none e b h = refl
    after_segment-view again w c p ps s (some (false, start, n, m)) e b h =
        ap (λ l. some (false, n, w.calls ++ m, l)) b
    after_segment-view again w c p ps s (some (true, start, n, m)) e b h =
        let f : (pop c).fifo ≡ ps = rw (pop, e) in
        let i : (pop c).index ≡ erase p c.index = rw (pop, e) in
        h _ f i
        ∙ (ap (λ t. write_all (pending t (pop c).index) n (w.calls ++ m)) f
            ∙ ap (λ t. write_all (pending ps t) n (w.calls ++ m)) i)

    end_round-view :
        (again : Work → Option (Bool × Work)) (fifo : List ℕ) (index : List WriteSegment)
        (next_ptr made counter notified : ℕ) (calls : List WriteCall)
        → (let v : Work = record {
          cache = record { fifo = fifo; index = index; next_ptr = next_ptr };
          made = made;
          counter = counter;
          notified = notified;
          calls = calls;
        } in
            (0 < length fifo → view (again v) ≡ Rest v)
            → view (end_round outcomes head handles pool again v) ≡ Rest v)
    end_round-view again [] index next_ptr made counter notified calls h = refl
    end_round-view again (p ∷ ps) index next_ptr made counter notified calls h = h (omega arith)

    write_loop-view :
        (fuel : ℕ) (w : Work)
        → Closed w.cache.fifo w.cache.index
        → 0 < length w.cache.fifo
        → length w.cache.fifo ≤ fuel
        → view (write_loop outcomes head handles pool fuel w) ≡ Rest w
    unfolding write_loop
    write_loop-view zero w c o le = absurd (omega (arith, o, le))
    write_loop-view (suc fuel) w c o le =
        let r = skip_copies-Skipped w.cache.fifo w.cache.index c o in
        let d : WriteCache = record w.cache { fifo = r.first ∷ r.rest; index = r.index } in
        let again = write_loop outcomes head handles pool fuel in
        rw
          (
            front-Skipped w.cache.fifo w.cache.index w.cache.next_ptr r,
            r.found,
            r.before,
            write_loop,
          )
          (after_segment-view again w d r.first r.rest r.segment
            (write_segment outcomes head handles r.segment w.made) refl r.after
            (λ v g h.
              end_round-view again v.cache.fifo v.cache.index v.cache.next_ptr v.made v.counter
                v.notified v.calls
                (λ more.
                  write_loop-view fuel v (rw (g, h) r.closed) more
                    (omega (arith, r.shorter, le, ap length g)))))

    -- On a cache in which every entry of the FIFO is in the index when its turn comes, and the last one
    -- is an original, doWork does what writing the originals one after the other, in the order of the
    -- FIFO, does until one fails: it succeeds in the same cases, makes the same calls of doWrite, and
    -- leaves the same originals, the failed one in front; it comes to an end where each segment does.
    pub do_work-view :
        (w : Work)
        → Closed w.cache.fifo w.cache.index
        → view (do_work outcomes head handles pool w)
          ≡ write_all (pending w.cache.fifo w.cache.index) w.made w.calls
    unfolding do_work
    do_work-view w c =
        fifo_split w.cache.fifo w.cache.index w.cache.next_ptr w.made w.counter w.notified w.calls c
      where
        fifo_split :
            (fifo : List ℕ) (index : List WriteSegment) (next_ptr made counter notified : ℕ)
            (calls : List WriteCall)
            → Closed fifo index
            → (let v : Work = record {
              cache = record { fifo = fifo; index = index; next_ptr = next_ptr };
              made = made;
              counter = counter;
              notified = notified;
              calls = calls;
            } in
                view (do_work outcomes head handles pool v) ≡ Rest v)
        fifo_split [] index next_ptr made counter notified calls c = refl
        fifo_split (p ∷ ps) index next_ptr made counter notified calls c =
            write_loop-view (length (p ∷ ps))
              (record {
                cache = record { fifo = p ∷ ps; index = index; next_ptr = next_ptr };
                made = made;
                counter = counter;
                notified = notified;
                calls = calls;
              })
              c (omega arith) (omega arith)
