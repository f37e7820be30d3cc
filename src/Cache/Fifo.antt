-- ===== src/Cache/Fifo.antt =====
-- _front and getNext: which pending segment the writer of the cache is given.
use sstoraged.Common.{
  ℕ, ◌≡◌, ◌≢◌, refl, sym, ap, ◌∙◌, true, false, subst, ◌==◌, ==_iff, ==_refl, Option, none, some,
  List, [], ◌∷◌, ◌++◌, All, arith, Bool-cases, inl, inr,
}
use sstoraged.Cache.{
  WriteSegment, WriteCache, find, erase, is_copy, skip_copies, front, after_ptr, first_original,
  next_or_stay, get_next,
}

abbrev pub erase_all : List ℕ → List WriteSegment → List WriteSegment
erase_all [] l = l
erase_all (p ∷ ps) l = erase_all ps (erase p l)

find-erase : (p q : ℕ) (l : List WriteSegment) → p ≢ q → find p (erase q l) ≡ find p l
find-erase p q [] n = refl
find-erase p q (s ∷ l) n = elim (Bool-cases (s.ptr == q)) [
  | inl e ↦ let other : (s.ptr == p) ≡ false = ground arith in rw (e, other) (find-erase p q l n)
  | inr e ↦ rw (e, find-erase p q l n)
]

copy-erase : (p q : ℕ) (l : List WriteSegment) → p ≢ q → is_copy p (erase q l) ≡ is_copy p l
unfolding is_copy
copy-erase p q l n = rw (is_copy, find-erase p q l n)

-- An original differs from a copy.
apart : (p q : ℕ) (l : List WriteSegment) → is_copy p l ≡ false → is_copy q l ≡ true → p ≢ q
apart p q l h k e = elim (true_false (sym k ∙ (ap (λ r. is_copy r l) (sym e) ∙ h))) [ ]
  where
    true_false : ¬ (true ≡ false)
    true_false = cc

erased-none : (p : ℕ) (l : List WriteSegment) → find p (erase p l) ≡ none
erased-none p [] = refl
erased-none p (s ∷ l) = elim (Bool-cases (s.ptr == p)) [
  | inl e ↦ rw e (erased-none p l)
  | inr e ↦ rw (e, e) (erased-none p l)
]

gone : (p q : ℕ) (l : List WriteSegment) → p ≡ q → is_copy p (erase q l) ≡ false
unfolding is_copy
gone p q l k = subst (λ r. is_copy r (erase q l) ≡ false) (sym k) (rw (is_copy, erased-none q l))

still_copy : (p q : ℕ) (l : List WriteSegment) → is_copy p (erase q l) ≡ true → is_copy p l ≡ true
still_copy p q l h = elim (Bool-cases (p == q)) [
  | inl e ↦ let k = gone p q l ((==_iff p q).0 e) in cc
  | inr e ↦ sym (copy-erase p q l (λ k. ground (arith, k, e))) ∙ h
]

-- The copies at the head of a FIFO, and what the loop of `_front` reaches behind them.
pub record Reached (fifo : List ℕ) (l : List WriteSegment)
    (r : Option (ℕ × List ℕ × List WriteSegment)) : Type 0 where
  pub dropped : List ℕ
  pub first : ℕ
  pub rest : List ℕ
  pub splits : fifo ≡ dropped ++ (first ∷ rest)
  pub copies : All (λ p. is_copy p l ≡ true) dropped
  pub original : is_copy first (erase_all dropped l) ≡ false
  pub result : r ≡ some (first, first ∷ rest, erase_all dropped l)

All-still :
    (q : ℕ) (l : List WriteSegment) (ps : List ℕ)
    → All (λ p. is_copy p (erase q l) ≡ true) ps
    → All (λ p. is_copy p l ≡ true) ps
All-still q l [] h = tt
All-still q l (p ∷ ps) h = (still_copy p q l h.0, All-still q l ps h.1)

skip_copies-Reached :
    (ps : List ℕ) (l : List WriteSegment) (last : ℕ) (qs : List ℕ)
    → ps ≡ qs ++ (last ∷ [])
    → is_copy last l ≡ false
    → Reached ps l (skip_copies ps l)
unfolding skip_copies
skip_copies-Reached ps l last [] e o =
    rw (e, o, skip_copies)
      (record {
        dropped = [];
        first = last;
        rest = [];
        splits = refl;
        copies = tt;
        original = o;
        result = refl;
      })
skip_copies-Reached ps l last (q ∷ qs) e o = elim (Bool-cases (is_copy q l)) [
  | inl k ↦
      let r =
        skip_copies-Reached (qs ++ (last ∷ [])) (erase q l) last qs refl
          (copy-erase last q l (apart last q l o k) ∙ o) in
      rw (e, k, skip_copies)
        (record {
          dropped = q ∷ r.dropped;
          first = r.first;
          rest = r.rest;
          splits = ap (λ m. q ∷ m) r.splits;
          copies = (k, All-still q l r.dropped r.copies);
          original = r.original;
          result = r.result;
        })
  | inr k ↦
      rw (e, k, skip_copies)
        (record {
          dropped = [];
          first = q;
          rest = qs ++ (last ∷ []);
          splits = refl;
          copies = tt;
          original = k;
          result = refl;
        })
]

nonempty :
    (l pre : List ℕ) (p : ℕ) (rest : List ℕ)
    → l ≡ pre ++ (p ∷ rest)
    → (x : ℕ) × (xs : List ℕ) × (l ≡ x ∷ xs)
nonempty l [] p rest e = (p, rest, e)
nonempty l (q ∷ pre) p rest e = (q, pre ++ (p ∷ rest), e)

-- _front returns an original whenever the last entry of the FIFO is one: it drops the copies at the
-- head, from the FIFO and from the index, and leaves the rest as it is.
pub front_lem :
    (c : WriteCache) (qs : List ℕ) (last : ℕ)
    → c.fifo ≡ qs ++ (last ∷ [])
    → is_copy last c.index ≡ false
    → (dropped : List ℕ) × (first : ℕ) × (rest : List ℕ) × (c.fifo ≡ dropped ++ (first ∷ rest))
      × All (λ p. is_copy p c.index ≡ true) dropped
      × (is_copy first (erase_all dropped c.index) ≡ false)
      × (front c
          ≡ some (some first, record c { fifo = first ∷ rest; index = erase_all dropped c.index }))
unfolding front
front_lem c qs last e o = (r.dropped, r.first, r.rest, r.splits, r.copies, r.original, reached)
  where
    r : Reached c.fifo c.index (skip_copies c.fifo c.index)
    r = skip_copies-Reached c.fifo c.index last qs e o

    reached :
        front c
        ≡ some (
          some r.first,
          record c { fifo = r.first ∷ r.rest; index = erase_all r.dropped c.index },
        )
    reached = let (x, xs, k) = nonempty c.fifo qs last [] e in rw (k, front) (rw r.result)

after-append :
    (p : ℕ) (pre rest : List ℕ) → All (λ q. q ≢ p) pre → after_ptr p (pre ++ (p ∷ rest)) ≡ rest
unfolding after_ptr
after-append p [] rest h = rw (after_ptr, ==_refl p)
after-append p (q ∷ pre) rest h =
    let other : (q == p) ≡ false = ground (arith, h.0) in
    rw (other, after_ptr) (after-append p pre rest h.1)

first-original :
    (p : ℕ) (copies rest : List ℕ) (l : List WriteSegment)
    → All (λ q. is_copy q l ≡ true) copies
    → is_copy p l ≡ false
    → first_original (copies ++ (p ∷ rest)) l ≡ some p
unfolding first_original
first-original p [] rest l h o = rw (o, first_original)
first-original p (q ∷ copies) rest l h o =
    rw (h.0, first_original) (first-original p copies rest l h.1 o)

-- getNext of a segment in the container, at its first place in the FIFO, gives the next original of
-- the FIFO, over the copies between, and leaves the container as it is.
pub get_next_lem :
    (c : WriteCache) (s : WriteSegment) (p next : ℕ) (pre copies rest : List ℕ)
    → c.fifo ≡ pre ++ (p ∷ (copies ++ (next ∷ rest)))
    → All (λ q. q ≢ p) pre
    → find p c.index ≡ some s
    → All (λ q. is_copy q c.index ≡ true) copies
    → is_copy next c.index ≡ false
    → get_next (some p) c ≡ some (true, some next, c)
unfolding get_next next_or_stay
get_next_lem c s p next pre copies rest e n f h o =
    let (x, xs, k) = nonempty c.fifo pre p (copies ++ (next ∷ rest)) e in
    rw (k, f, get_next)
      (rw (
        ← k,
        e,
        after-append p pre (copies ++ (next ∷ rest)) n,
        first-original next copies rest c.index h o,
      ))
