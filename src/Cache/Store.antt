-- ===== src/Cache/Store.antt =====
-- The index as a store: what finding, writing and inserting a segment do to what holds of all or of
-- some of its segments.
use sstoraged.Common.{
  ℕ, ◌≡◌, ◌≢◌, sym, ap, subst, ◌∙◌, ◌<◌, false, ◌==◌, ==_iff, if◌then◌else◌, none, some, List, [],
  ◌∷◌, ◌++◌, All, Any, ◌⊎◌, inl, inr, arith, Bool-cases,
}
use sstoraged.Cache.{WriteSegment, LbaIndex, find, replace}

-- No two segments share an address.
abbrev pub Distinct : List WriteSegment → Type 0
Distinct [] = Unit
Distinct (s ∷ l) = All (λ t. t.ptr ≢ s.ptr) l × Distinct l

pub find-none : (p : ℕ) (l : List WriteSegment) → find p l ≡ none → All (λ s. s.ptr ≢ p) l
find-none p [] h = tt
find-none p (s ∷ l) h = (ground (arith, h), find-none p l (ground (arith, h)))

pub find-ptr : (p : ℕ) (l : List WriteSegment) (s : WriteSegment) → find p l ≡ some s → s.ptr ≡ p
find-ptr p [] s h = cc
find-ptr p (t ∷ l) s h = ground (arith, find-ptr p l s)

pub find-All :
    (P : WriteSegment → Type 0) (p : ℕ) (l : List WriteSegment) (s : WriteSegment)
    → All P l
    → find p l ≡ some s
    → P s
find-All P p [] s a h = cc
find-All P p (t ∷ l) s a h = elim (Bool-cases (t.ptr == p)) [
  | inl e ↦ let same : t ≡ s = ground (arith, h) in rw (← same) a.0
  | inr ne ↦ find-All P p l s a.1 (rw ne at h)
]

module _ (P : WriteSegment → Type 0) where
  pub All-map :
      (Q : WriteSegment → Type 0) (l : List WriteSegment)
      → ((s : WriteSegment) → P s → Q s)
      → All P l
      → All Q l
  All-map Q [] f a = tt
  All-map Q (s ∷ l) f a = (f s a.0, All-map Q l f a.1)

  pub All-append :
      (pre post : List WriteSegment) (s : WriteSegment)
      → P s
      → All P (pre ++ post)
      → All P (pre ++ (s ∷ post))
  All-append [] post s p a = (p, a)
  All-append (t ∷ pre) post s p a = (a.0, All-append pre post s p a.1)

  pub Any-append :
      (pre post : List WriteSegment) (s : WriteSegment)
      → P s ⊎ Any P (pre ++ post)
      → Any P (pre ++ (s ∷ post))
  Any-append [] post s h = h
  Any-append (t ∷ pre) post s (inl h) = inr (Any-append pre post s (inl h))
  Any-append (t ∷ pre) post s (inr (inl h)) = inl h
  Any-append (t ∷ pre) post s (inr (inr h)) = inr (Any-append pre post s (inr h))

  pub append-Any :
      (pre post : List WriteSegment) (s : WriteSegment)
      → Any P (pre ++ (s ∷ post))
      → P s ⊎ Any P (pre ++ post)
  append-Any [] post s h = h
  append-Any (t ∷ pre) post s (inl h) = inr (inl h)
  append-Any (t ∷ pre) post s (inr h) = elim (append-Any pre post s h) [
    | inl x ↦ inl x
    | inr x ↦ inr (inr x)
  ]

  pub insert-All :
      (ix : LbaIndex) (s : WriteSegment) (l : List WriteSegment)
      → P s
      → All P l
      → All P (ix.insert s l)
  insert-All ix s l p a =
      let (pre, post, e, f) = ix.insert-append s l in rw f (All-append pre post s p (rw e at a))

  pub insert-Any :
      (ix : LbaIndex) (s : WriteSegment) (l : List WriteSegment)
      → P s ⊎ Any P l
      → Any P (ix.insert s l)
  insert-Any ix s l h =
      let (pre, post, e, f) = ix.insert-append s l in rw f (Any-append pre post s (rw e at h))

  pub Any-insert :
      (ix : LbaIndex) (s : WriteSegment) (l : List WriteSegment)
      → Any P (ix.insert s l)
      → P s ⊎ Any P l
  Any-insert ix s l h =
      let (pre, post, e, f) = ix.insert-append s l in rw e (append-Any pre post s (rw f at h))

  pub replace-All :
      (p : ℕ) (v : WriteSegment) (l : List WriteSegment)
      → P v
      → All (λ s. s.ptr ≢ p → P s) l
      → All P (replace p v l)
  replace-All p v [] w a = tt
  replace-All p v (s ∷ l) w a = (ground (arith, w, a.0), replace-All p v l w a.1)

  pub Any-replace :
      (p : ℕ) (v : WriteSegment) (l : List WriteSegment) → Any P (replace p v l) → P v ⊎ Any P l
  Any-replace p v [] h = elim h [ ]
  Any-replace p v (s ∷ l) (inl h) = elim (Bool-cases (s.ptr == p)) [
    | inl e ↦ inl (rw e at h)
    | inr ne ↦ inr (inl (rw ne at h))
  ]
  Any-replace p v (s ∷ l) (inr h) = elim (Any-replace p v l h) [
    | inl x ↦ inl x
    | inr x ↦ inr (inr x)
  ]

  replace-other :
      (p : ℕ) (v : WriteSegment) (l : List WriteSegment)
      → All (λ s. s.ptr ≢ p) l
      → Any P l
      → Any P (replace p v l)
  replace-other p v [] a h = h
  replace-other p v (s ∷ l) a (inl h) =
      let ne : (s.ptr == p) ≡ false = ground (arith, a.0) in inl (rw ne h)
  replace-other p v (s ∷ l) a (inr h) = inr (replace-other p v l a.1 h)

  -- What holds of some segment holds of the one that is written over, or still of some segment.
  pub replace-Any :
      (p : ℕ) (v : WriteSegment) (l : List WriteSegment) (s : WriteSegment)
      → Distinct l
      → find p l ≡ some s
      → Any P l
      → P s ⊎ Any P (replace p v l)
  replace-Any p v [] s d f h = elim h [ ]
  replace-Any p v (t ∷ l) s d f h = elim (Bool-cases (t.ptr == p)) [
    | inl e ↦
        let same : t ≡ s = ground (arith, f) in
        let eq : t.ptr ≡ p = (==_iff t.ptr p).0 e in
        elim h [
          | inl x ↦ inl (rw (← same) x)
          | inr x ↦ inr (inr (replace-other p v l (rw (← eq) d.0) x))
        ]
    | inr ne ↦ elim h [
      | inl x ↦ inr (inl (rw ne x))
      | inr x ↦ elim (replace-Any p v l s d.1 (rw ne at f) x) [
        | inl y ↦ inl y
        | inr y ↦ inr (inr y)
      ]
    ]
  ]

  pub replace-Any_new :
      (p : ℕ) (v : WriteSegment) (l : List WriteSegment) (s : WriteSegment)
      → find p l ≡ some s
      → P v
      → Any P (replace p v l)
  replace-Any_new p v [] s f h = cc
  replace-Any_new p v (t ∷ l) s f h = elim (Bool-cases (t.ptr == p)) [
    | inl e ↦ inl (rw e h)
    | inr ne ↦ inr (replace-Any_new p v l s (rw ne at f) h)
  ]

module _ (P : WriteSegment → Type 0) where
  pub find-Any :
      (p : ℕ) (l : List WriteSegment) (s : WriteSegment) → find p l ≡ some s → P s → Any P l
  find-Any p [] s f h = cc
  find-Any p (t ∷ l) s f h = elim (Bool-cases (t.ptr == p)) [
    | inl e ↦ let same : t ≡ s = ground (arith, f) in inl (rw same h)
    | inr ne ↦ inr (find-Any p l s (rw ne at f) h)
  ]

  pub replace-Any_kept :
      (p : ℕ) (v : WriteSegment) (l : List WriteSegment)
      → Any (λ t. (t.ptr ≢ p) × P t) l
      → Any P (replace p v l)
  replace-Any_kept p v [] h = elim h [ ]
  replace-Any_kept p v (t ∷ l) (inl h) =
      let ne : (t.ptr == p) ≡ false = ground (arith, h.0) in inl (rw ne h.1)
  replace-Any_kept p v (t ∷ l) (inr h) = inr (replace-Any_kept p v l h)

pub find-append_ne :
    (p : ℕ) (pre post : List WriteSegment) (s : WriteSegment)
    → s.ptr ≢ p
    → find p (pre ++ (s ∷ post)) ≡ find p (pre ++ post)
find-append_ne p [] post s ne = ground (arith, ne)
find-append_ne p (t ∷ pre) post s ne = ground (arith, find-append_ne p pre post s ne)

-- A segment at another address does not hide the one at `p`.
pub find-insert :
    (ix : LbaIndex) (p : ℕ) (s : WriteSegment) (l : List WriteSegment)
    → s.ptr ≢ p
    → find p (ix.insert s l) ≡ find p l
find-insert ix p s l ne =
    let (pre, post, e, f) = ix.insert-append s l in
    ap (find p) f ∙ find-append_ne p pre post s ne ∙ ap (find p) (sym e)

append-Distinct :
    (pre post : List WriteSegment) (s : WriteSegment)
    → All (λ t. t.ptr ≢ s.ptr) (pre ++ post)
    → Distinct (pre ++ post)
    → Distinct (pre ++ (s ∷ post))
append-Distinct [] post s a d = (a, d)
append-Distinct (t ∷ pre) post s a d = (
  All-append (λ u. u.ptr ≢ t.ptr) pre post s (λ e. a.0 (sym e)) d.0,
  append-Distinct pre post s a.1 d.1,
)

pub insert-Distinct :
    (ix : LbaIndex) (s : WriteSegment) (l : List WriteSegment)
    → All (λ t. t.ptr ≢ s.ptr) l
    → Distinct l
    → Distinct (ix.insert s l)
insert-Distinct ix s l a d =
    let (pre, post, e, f) = ix.insert-append s l in
    rw f (append-Distinct pre post s (rw e at a) (rw e at d))

pub replace-ptrs :
    (P : ℕ → Type 0) (p : ℕ) (v : WriteSegment) (l : List WriteSegment)
    → v.ptr ≡ p
    → All (λ s. P s.ptr) l
    → All (λ s. P s.ptr) (replace p v l)
replace-ptrs P p v [] e a = tt
replace-ptrs P p v (s ∷ l) e a = (head, replace-ptrs P p v l e a.1)
  where
    head : P (if s.ptr == p then v else s).ptr
    head = elim (Bool-cases (s.ptr == p)) [
      | inl h ↦ let same : s.ptr ≡ v.ptr = (==_iff s.ptr p).0 h ∙ sym e in rw h (subst P same a.0)
      | inr h ↦ rw h a.0
    ]

pub replace-below :
    (n p : ℕ) (v : WriteSegment) (l : List WriteSegment)
    → v.ptr ≡ p
    → All (λ s. s.ptr < n) l
    → All (λ s. s.ptr < n) (replace p v l)
replace-below n p v l = replace-ptrs (λ q. q < n) p v l

pub replace-Distinct :
    (p : ℕ) (v : WriteSegment) (l : List WriteSegment)
    → v.ptr ≡ p
    → Distinct l
    → Distinct (replace p v l)
replace-Distinct p v [] e d = tt
replace-Distinct p v (s ∷ l) e d = (
  subst (λ q. All (λ t. t.ptr ≢ q) (replace p v l)) (sym same)
      (replace-ptrs (λ q. q ≢ s.ptr) p v l e d.0),
  replace-Distinct p v l e d.1,
)
  where
    same : (if s.ptr == p then v else s).ptr ≡ s.ptr
    same = ground (arith, e)
