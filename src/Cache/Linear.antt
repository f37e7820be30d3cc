-- ===== src/Cache/Linear.antt =====
-- An ordered index by linear walks: it shows that what `LbaIndex` asks of the container can be met.
use sstoraged.Common.{
  ℕ, ◌≤◌, ◌<◌, ◌≡◌, refl, ap, ltb, leb, if◌then◌else◌, List, [], ◌∷◌, ◌++◌, All, arith, Bool-cases,
  inl, inr,
}
use sstoraged.Cache.{WriteSegment, LbaIndex, Sorted, join}
use sstoraged.Cache.Store.{All-map, All-append}

abbrev pub walk : ℕ → List WriteSegment → List WriteSegment → List WriteSegment × List WriteSegment
walk k r [] = (r, [])
walk k r (s ∷ l) = let rest = walk k (s ∷ r) l in if ltb s.rlba k then rest else (r, s ∷ l)

abbrev pub add : WriteSegment → List WriteSegment → List WriteSegment
add s [] = s ∷ []
add s (t ∷ l) = let rest = add s l in if leb t.rlba s.rlba then t ∷ rest else s ∷ t ∷ l

pub walk-join : (k : ℕ) (r l : List WriteSegment) → join (walk k r l).0 (walk k r l).1 ≡ join r l
walk-join k r [] = refl
walk-join k r (s ∷ l) = elim (Bool-cases (ltb s.rlba k)) [
  | inl e ↦ rw e (walk-join k (s ∷ r) l)
  | inr e ↦ rw e
]

pub walk-before :
    (k : ℕ) (r l : List WriteSegment)
    → All (λ t. t.rlba < k) r
    → All (λ t. t.rlba < k) (walk k r l).0
walk-before k r [] h = h
walk-before k r (s ∷ l) h = elim (Bool-cases (ltb s.rlba k)) [
  | inl e ↦ rw e (walk-before k (s ∷ r) l (ground arith, h))
  | inr e ↦ rw e h
]

pub walk-from : (k : ℕ) (r l : List WriteSegment) → Sorted l → All (λ t. k ≤ t.rlba) (walk k r l).1
walk-from k r [] o = tt
walk-from k r (s ∷ l) o = elim (Bool-cases (ltb s.rlba k)) [
  | inl e ↦ rw e (walk-from k (s ∷ r) l o.1)
  | inr e ↦ rw e (
    ground arith,
    All-map (λ t. s.rlba ≤ t.rlba) (λ t. k ≤ t.rlba) l (λ t h. ground (arith, e)) o.0,
  )
]

pub add-append :
    (s : WriteSegment) (l : List WriteSegment)
    → (pre : List WriteSegment) × (post : List WriteSegment) × (l ≡ pre ++ post)
      × (add s l ≡ pre ++ (s ∷ post))
add-append s [] = ([], [], refl, refl)
add-append s (t ∷ l) = elim (Bool-cases (leb t.rlba s.rlba)) [
  | inl e ↦ let (pre, post, p, q) = add-append s l in (t ∷ pre, post, ap (λ m. t ∷ m) p, rw (e, q))
  | inr e ↦ ([], t ∷ l, refl, rw e)
]

add-All :
    (P : WriteSegment → Type 0) (s : WriteSegment) (l : List WriteSegment)
    → P s
    → All P l
    → All P (add s l)
add-All P s l p a =
    let (pre, post, e, f) = add-append s l in rw f (All-append P pre post s p (rw e at a))

pub add-Sorted : (s : WriteSegment) (l : List WriteSegment) → Sorted l → Sorted (add s l)
add-Sorted s [] o = (tt, tt)
add-Sorted s (t ∷ l) o = elim (Bool-cases (leb t.rlba s.rlba)) [
  | inl e ↦ rw e (add-All (λ u. t.rlba ≤ u.rlba) s l (ground arith) o.0, add-Sorted s l o.1)
  | inr e ↦ rw e (
    (
      ground arith,
      All-map (λ u. t.rlba ≤ u.rlba) (λ u. s.rlba ≤ u.rlba) l (λ u h. ground (arith, e)) o.0,
    ),
    o,
  )
]

abbrev pub linear : LbaIndex
linear = record {
  lower_bound = λ k. walk k [];
  insert = add;
  lower_bound-join = λ k. walk-join k [];
  lower_bound-from = λ k. walk-from k [];
  lower_bound-before = λ k l _. walk-before k [] l tt;
  insert-append = add-append;
  insert-Sorted = add-Sorted;
}
