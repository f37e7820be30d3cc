-- ===== src/Cache/Search.antt =====
-- WriteCache::_search against its reference: the live segments that overlap the range, in order.
use sstoraged.Common.{
  ℕ, ◌+◌, ◌^◌, ◌≤◌, ◌<◌, ◌≡◌, refl, sym, ◌∙◌, Bool, false, ◌&&◌, ltb, ◌==◌, if◌then◌else◌, List, [],
  ◌∷◌, All, Any, inl, inr, arith, add64, add64_small, select, Bool-cases,
}
use sstoraged.Cache.{WriteSegment, LbaIndex, join, Sorted, again, scan_back, fill_hits, search}

-- A later segment of the index starts no earlier, and past the end of a live one if it is live.
abbrev pub After : WriteSegment → WriteSegment → Type 0
After s t = (s.rlba ≤ t.rlba) × (0 < s.rlength → 0 < t.rlength → s.rlba + s.rlength ≤ t.rlba)

-- The keys are in order, and the live ranges are disjoint.
abbrev pub Ordered : List WriteSegment → Type 0
Ordered [] = Unit
Ordered (s ∷ l) = All (After s) l × Ordered l

-- A range that does not wrap.
abbrev pub Fits : WriteSegment → Type 0
Fits s = s.rlba + s.rlength < 2 ^ 64

abbrev pub overlaps : ℕ → ℕ → WriteSegment → Bool
overlaps lba length s =
    ltb 0 s.rlength && (ltb s.rlba (lba + length) && ltb lba (s.rlba + s.rlength))

pub Ordered-Sorted : (l : List WriteSegment) → Ordered l → Sorted l
Ordered-Sorted [] o = tt
Ordered-Sorted (s ∷ l) o = (keys l o.0, Ordered-Sorted l o.1)
  where
    keys : (m : List WriteSegment) → All (After s) m → All (λ t. s.rlba ≤ t.rlba) m
    keys [] a = tt
    keys (t ∷ m) a = (a.0.0, keys m a.1)

pub join-Ordered : (r cur : List WriteSegment) → Ordered (join r cur) → Ordered cur
join-Ordered [] cur o = o
join-Ordered (s ∷ r) cur o = (join-Ordered r (s ∷ cur) o).1

pub join-All :
    (P : WriteSegment → Type 0) (r cur : List WriteSegment)
    → All P (join r cur)
    → All P r × All P cur
join-All P [] cur h = (tt, h)
join-All P (s ∷ r) cur h = let rest = join-All P r (s ∷ cur) h in ((rest.1.0, rest.0), rest.1.1)

module _ (lba length : ℕ) (bound : lba + length < 2 ^ 64) where
  none-beyond :
      (l : List WriteSegment)
      → All (λ t. lba + length ≤ t.rlba) l
      → select (overlaps lba length) l ≡ []
  none-beyond [] h = refl
  none-beyond (s ∷ l) h = ground (arith, none-beyond l h.1)

  beyond :
      (s : WriteSegment) (l : List WriteSegment)
      → All (After s) l
      → lba + length ≤ s.rlba
      → All (λ t. lba + length ≤ t.rlba) l
  beyond s [] a h = tt
  beyond s (t ∷ l) a h = (omega (arith, a.0.0), beyond s l a.1 h)

  -- From a place where every live segment ends past `lba`, the filling loop finds the overlaps.
  fill_hits-select :
      (l : List WriteSegment)
      → Ordered l
      → All (λ t. 0 < t.rlength → lba < t.rlba + t.rlength) l
      → fill_hits lba length l ≡ select (overlaps lba length) l
  unfolding fill_hits
  fill_hits-select [] o h = refl
  fill_hits-select (s ∷ l) o h =
      let past = λ (p : lba + length ≤ s.rlba). none-beyond l (beyond s l o.0 p) in
      rw (add64_small lba length bound) (ground (arith, past, h.0, fill_hits-select l o.1 h.1))

  -- What stands after a live segment that ends past `lba` does so too.
  ends-past :
      (s : WriteSegment) (l : List WriteSegment)
      → All (After s) l
      → 0 < s.rlength
      → lba < s.rlba + s.rlength
      → All (λ t. 0 < t.rlength → lba < t.rlba + t.rlength) l
  ends-past s [] a p q = tt
  ends-past s (t ∷ l) a p q = (λ live. omega (arith, a.0.1 p live), ends-past s l a.1 p q)

  -- What stands before a live segment that starts at `lba` or earlier does not overlap.
  abbrev Stop : List WriteSegment → Type 0
  Stop = Any (λ t. (0 < t.rlength) × (t.rlba ≤ lba))

  Stop-overlaps :
      (s : WriteSegment) (l : List WriteSegment)
      → All (After s) l
      → Stop l
      → overlaps lba length s ≡ false
  Stop-overlaps s [] a p = elim p [ ]
  Stop-overlaps s (t ∷ l) a (inl p) = ground (arith, a.0)
  Stop-overlaps s (t ∷ l) a (inr p) = Stop-overlaps s l a.1 p

  select-Stop :
      (r cur : List WriteSegment)
      → Ordered (join r cur)
      → Stop cur
      → select (overlaps lba length) (join r cur) ≡ select (overlaps lba length) cur
  select-Stop [] cur o p = refl
  select-Stop (s ∷ r) cur o p =
      select-Stop r (s ∷ cur) o (inr p)
      ∙ rw (Stop-overlaps s cur (join-Ordered r (s ∷ cur) o).0 p, select)

  again-Stop : (cur : List WriteSegment) → again lba cur ≡ false → Stop cur
  unfolding again
  again-Stop [] h = cc
  again-Stop (c ∷ cur) h = inl (ground arith, ground arith)

  -- Where `itr` stands after a step back over `s`.
  abbrev moved : WriteSegment → List WriteSegment → List WriteSegment → List WriteSegment
  moved s cur itr =
      if s.rlength == 0 then itr else if ltb lba (add64 s.rlba s.rlength) then s ∷ cur else itr

  moved-select :
      (s : WriteSegment) (cur itr : List WriteSegment)
      → Ordered (s ∷ cur)
      → Fits s
      → s.rlba < lba
      → fill_hits lba length itr ≡ select (overlaps lba length) cur
      → fill_hits lba length (moved s cur itr) ≡ select (overlaps lba length) (s ∷ cur)
  moved-select s cur itr o f b h =
      rw (add64_small s.rlba s.rlength f)
        (elim (Bool-cases (ltb 0 s.rlength && ltb lba (s.rlba + s.rlength))) [
          | inl live ↦
              let now : moved' ≡ s ∷ cur = ground arith in
              rw now (
                fill_hits-select (s ∷ cur) o
                  (λ _. ground arith, ends-past s cur o.0 (ground arith) (ground arith)))
          | inr dead ↦
              let now : moved' ≡ itr = ground arith in
              let no : overlaps lba length s ≡ false = ground arith in rw (now, no, select) h
        ])
    where
      moved' : List WriteSegment
      moved' = if s.rlength == 0 then itr else if ltb lba (s.rlba + s.rlength) then s ∷ cur else itr

  scan_back-select :
      (r cur itr : List WriteSegment)
      → Ordered (join r cur)
      → All Fits r
      → All (λ s. s.rlba < lba) r
      → fill_hits lba length itr ≡ select (overlaps lba length) cur
      → fill_hits lba length (scan_back lba r cur itr) ≡ select (overlaps lba length) (join r cur)
  unfolding scan_back
  scan_back-select [] cur itr o f b h = h
  scan_back-select (s ∷ r) cur itr o f b h = elim (Bool-cases (again lba cur)) [
    | inl on ↦ rw on (
        scan_back-select r (s ∷ cur) (moved s cur itr) o f.1 b.1
          (moved-select s cur itr (join-Ordered r (s ∷ cur) o) f.0 b.0 h))
    | inr stop ↦ rw stop (h ∙ sym (select-Stop (s ∷ r) cur o (again-Stop cur stop)))
  ]

  from-ends :
      (l : List WriteSegment)
      → All (λ t. lba ≤ t.rlba) l
      → All (λ t. 0 < t.rlength → lba < t.rlba + t.rlength) l
  from-ends [] h = tt
  from-ends (t ∷ l) h = (λ live. omega (arith, h.0), from-ends l h.1)

-- On an index whose keys are in order and whose live ranges are disjoint, _search finds exactly the
-- live segments that overlap the range, in the order of the index.
pub search-select :
    (ix : LbaIndex) (l : List WriteSegment) (lba length : ℕ)
    → lba + length < 2 ^ 64
    → Ordered l
    → All Fits l
    → search ix l lba length ≡ select (overlaps lba length) l
unfolding search
search-select ix [] lba length bound o f = refl
search-select ix (s ∷ l) lba length bound o f =
    let (r, cur) = ix.lower_bound lba (s ∷ l) in
    let e : join r cur ≡ s ∷ l = ix.lower_bound-join lba (s ∷ l) in
    let o' : Ordered (join r cur) = rw e o in
    let f' : All Fits (join r cur) = rw e f in
    let ff = join-All Fits r cur f' in
    let sorted = Ordered-Sorted (s ∷ l) o in
    scan_back-select lba length bound r cur cur o' ff.0 (ix.lower_bound-before lba (s ∷ l) sorted) (
      fill_hits-select lba length bound cur (join-Ordered r cur o')
        (from-ends lba length bound cur (ix.lower_bound-from lba (s ∷ l) sorted)))
    ∙ rw e
