-- ===== src/DiskWriter/Resolve.antt =====
-- src/diskwriter.cpp: which handle getHandle takes, against the layout that the map of handles gives
-- to the disk.
use sstoraged.Common.{
  ℕ, ◌+◌, ◌-◌, ◌^◌, ◌≤◌, ◌<◌, ◌≡◌, refl, sym, ap, ◌∙◌, subst, min, true, ◌&&◌, ltb, leb, ◌==◌,
  if◌then◌else◌, if_cases, Option, none, some, List, [], ◌∷◌, All, arith, add64, sub64, Bool-cases,
  inl, inr, ◌≢◌,
}
use sstoraged.Volume.{LowHandle}
use sstoraged.DiskWriter.{entry_at, cover, get_handle}

-- The file, and the offset in it, at which a byte of the disk lies.
abbrev pub located : List (ℕ × LowHandle) → ℕ → Option (ℕ × ℕ)
located [] a = none
located ((k, h) ∷ l) a =
    if leb k a && ltb a (k + h.length) then some (h.path, a - k + h.offset) else located l a

-- The handles cover ranges that are not empty and do not overlap.
abbrev pub Laid : List (ℕ × LowHandle) → Type 0
Laid [] = Unit
Laid ((k, h) ∷ l) =
    (0 < h.length)
    × ((k + h.length < 2 ^ 63)
        × ((h.length + h.offset < 2 ^ 63) × (All (λ e. k + h.length ≤ e.0) l × Laid l)))

abbrev Inside : List (ℕ × LowHandle) → ℕ × LowHandle → Type 0
Inside l (k, h) = (a : ℕ) → k ≤ a → a < k + h.length → located l a ≡ some (h.path, a - k + h.offset)

abbrev Entry : List (ℕ × LowHandle) → ℕ → Option (ℕ × LowHandle) → Type 0
Entry l start none = ⊥
Entry l start (some (k, h)) =
    (k ≤ start)
    × ((start < k + h.length)
        × ((k + h.length < 2 ^ 63) × ((h.length + h.offset < 2 ^ 63) × Inside l (k, h))))

located-after :
    (l : List (ℕ × LowHandle)) (b a : ℕ) → All (λ e. b ≤ e.0) l → located l a ≢ none → b ≤ a
located-after [] b a h n = absurd (n refl)
located-after ((k, h) ∷ l) b a (le, r) n = elim (Bool-cases (leb k a && ltb a (k + h.length))) [
  | inl e ↦ ground (arith, e, le)
  | inr e ↦ located-after l b a r (λ q. n (rw e q))
]

entry_at-before :
    (l : List (ℕ × LowHandle)) (start b : ℕ) (e : ℕ × LowHandle)
    → start < b
    → All (λ e. b ≤ e.0) l
    → entry_at start (some e) l ≡ some e
unfolding entry_at
entry_at-before [] start b e lt h = refl
entry_at-before ((k, h) ∷ l) start b e lt (le, r) = ground (arith, le, lt)

here-Entry :
    (l : List (ℕ × LowHandle)) (start k : ℕ) (h : LowHandle)
    → k + h.length < 2 ^ 63
    → h.length + h.offset < 2 ^ 63
    → (leb k start && ltb start (k + h.length)) ≡ true
    → Entry ((k, h) ∷ l) start (some (k, h))
here-Entry l start k h z y e =
    (ground (arith, e), (ground (arith, e), (z, (y, λ a ge lt. ground (arith, ge, lt)))))

some≢none : (x : ℕ × ℕ) → some x ≢ none
some≢none x = λ e. ground (arith, e)

Entry-cons :
    (l : List (ℕ × LowHandle)) (start k : ℕ) (h : LowHandle) (o : Option (ℕ × LowHandle))
    → All (λ e. k + h.length ≤ e.0) l
    → Entry l start o
    → Entry ((k, h) ∷ l) start o
Entry-cons l start k h none r e = e
Entry-cons l start k h (some (j, g)) r (a, (b, (z, (y, i)))) =
    let past : k + h.length ≤ j =
      located-after l (k + h.length) j r
        (λ q. some≢none _ (sym (i j (omega arith) (omega (arith, a, b))) ∙ q)) in
    (a, (b, (z, (y, λ c ge lt. ground (arith, past, ge, i c ge lt)))))

entry_at-Entry :
    (l : List (ℕ × LowHandle)) (start : ℕ) (before : Option (ℕ × LowHandle))
    → Laid l
    → located l start ≢ none
    → Entry l start (entry_at start before l)
unfolding entry_at
entry_at-Entry [] start before w n = absurd (n refl)
entry_at-Entry ((k, h) ∷ l) start before (o, (z, (y, (r, w)))) n =
    let P = Entry ((k, h) ∷ l) start in
    elim (Bool-cases (leb k start && ltb start (k + h.length))) [
      | inl e ↦
          let here = here-Entry l start k h z y e in
          if_cases P (ltb k start) _ _
            (λ q.
              subst P (sym (entry_at-before l start (k + h.length) (k, h) (ground (arith, e)) r))
                here)
            (λ q. if_cases P (ltb start k) _ _ (λ q'. absurd (ground (arith, e, q'))) (λ q'. here))
      | inr e ↦
          let n' : located l start ≢ none = λ q. n (rw e q) in
          let past = located-after l (k + h.length) start r n' in
          if_cases P (ltb k start) _ _
            (λ q. Entry-cons l start k h _ r (entry_at-Entry l start (some (k, h)) w n'))
            (λ q. absurd (ground (arith, q, past, o)))
    ]

-- What `getHandle` resolves: some bytes of the range, from its first, all in one file and in order.
abbrev pub Resolved : List (ℕ × LowHandle) → ℕ → ℕ → Option (ℕ × ℕ × ℕ) → Type 0
Resolved handles start n none = ⊥
Resolved handles start n (some (path, covered, real)) =
    (0 < covered)
    × ((covered ≤ n)
        × ((real + covered < 2 ^ 63)
            × ((j : ℕ) → j < covered → located handles (start + j) ≡ some (path, real + j))))

cover-Resolved :
    (handles : List (ℕ × LowHandle)) (start n : ℕ) (o : Option (ℕ × LowHandle))
    → 0 < n
    → Entry handles start o
    → Resolved handles start n (cover start n o)
cover-Resolved handles start n none z e = e
cover-Resolved handles start n (some (k, h)) z (a, (b, (y, (x, i)))) =
    let real = add64 (sub64 start k) h.offset in
    let covered = min n (sub64 (add64 h.length h.offset) real) in
    let e : real ≡ start - k + h.offset = omega (arith, a, b, y, x) in
    let f : covered ≡ min n (k + h.length - start) = omega (arith, a, b, y, x, e) in
    if_cases (Resolved handles start n) (ltb start k) _ _ (λ q. absurd (ground (arith, q, a)))
      (λ q.
        if_cases (Resolved handles start n) (covered == 0) _ _
          (λ r. absurd (ground (arith, r, f, z, b)))
          (λ r. (
            omega (arith, f, z, b),
            (
              omega (arith, f),
              (
                omega (arith, e, f, a, b, x),
                λ j lt.
                    i (start + j) (omega (arith, a)) (omega (arith, f, lt, b))
                    ∙ ap (λ t. some (h.path, t)) (omega (arith, e, a)),
              ),
            ),
          )))

-- With handles that are not empty and do not overlap, and offsets below 2 ^ 63, `getHandle` of a range
-- that is not empty, whose first byte lies in a handle, gives that handle, with as many bytes of the
-- range, one at least, as lie in it from there on, each at its place.
pub get_handle-Resolved :
    (handles : List (ℕ × LowHandle)) (start n : ℕ)
    → Laid handles
    → located handles start ≢ none
    → 0 < n
    → Resolved handles start n (get_handle handles start n)
unfolding get_handle
get_handle-Resolved handles start n w l z =
    cover-Resolved handles start n (entry_at start none handles) z
      (entry_at-Entry handles start none w l)
