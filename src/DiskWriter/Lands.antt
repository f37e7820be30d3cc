-- ===== src/DiskWriter/Lands.antt =====
-- What calls of doWrite write, byte by byte.
use sstoraged.Common.{
  ℕ, suc, ◌+◌, ◌-◌, ◌≤◌, ◌<◌, ◌≡◌, ap, ◌∙◌, Bool, true, false, ltb, if◌then◌else◌, Option, none,
  some, List, [], ◌∷◌, ◌++◌, min, length, length-append, subst, sym, arith, Bool-cases, inl, inr,
}
use sstoraged.Volume.{LowHandle}
use sstoraged.Buffers.{common_buf_size}
use sstoraged.DiskWriter.{Pwrite, Extent, do_write, get_handle, WriteCall, Part, after_calls}
use sstoraged.DiskWriter.Resolve.{located}

abbrev pub sizes : List WriteCall → ℕ
sizes [] = 0
sizes (c ∷ l) = c.size + sizes l

-- The byte `j` of what calls of doWrite write: the file and the offset in it, the buffer and the
-- offset in that.
abbrev pub Byte : Type 0
Byte = Option ((ℕ × ℕ) × (ℕ × ℕ))

abbrev pub byte : List WriteCall → ℕ → Byte
byte [] j = none
byte (c ∷ l) j =
    if ltb j c.size
    then some ((c.path, c.offset + j), (c.buf, c.buf_offset + j))
    else byte l (j - c.size)

abbrev pub landed : Option (ℕ × ℕ) → ℕ × ℕ → Byte
landed none s = none
landed (some p) s = some (p, s)

byte-append :
    (l m : List WriteCall) (j : ℕ)
    → byte (l ++ m) j ≡ (if ltb j (sizes l) then byte l j else byte m (j - sizes l))
byte-append [] m j = let e : j - 0 ≡ j = omega arith in ground (arith, ap (byte m) e)
byte-append (c ∷ l) m j = elim (Bool-cases (ltb j c.size)) [
  | inl e ↦ ground (arith, e)
  | inr e ↦
      let f : j - c.size - sizes l ≡ j - (c.size + sizes l) = omega arith in
      ground (arith, e, byte-append l m (j - c.size), ap (byte m) f)
]

sizes-append : (l m : List WriteCall) → sizes (l ++ m) ≡ sizes l + sizes m
sizes-append [] m = omega arith
sizes-append (c ∷ l) m = omega (arith, sizes-append l m)

module _ (handles : List (ℕ × LowHandle)) where
  -- The calls write `n` bytes, from `source`, to the places of the disk from `start` on.
  abbrev pub Lands : (ℕ → ℕ × ℕ) → ℕ → ℕ → List WriteCall → Type 0
  Lands source start n l =
      (sizes l ≡ n) × ((j : ℕ) → j < n → byte l j ≡ landed (located handles (start + j)) (source j))

  Lands-append :
      (f g : ℕ → ℕ × ℕ) (start a b : ℕ) (l m : List WriteCall)
      → Lands f start a l
      → Lands g (start + a) b m
      → ((j : ℕ) → j < b → g j ≡ f (a + j))
      → Lands f start (a + b) (l ++ m)
  Lands-append f g start a b l m (s, h) (t, k) e = (
    omega (arith, sizes-append l m, s, t),
    λ j lt. elim (Bool-cases (ltb j (sizes l))) [
      | inl q ↦ rw (byte-append l m j, q) (h j (ground (arith, q, s)))
      | inr q ↦
          let i = j - sizes l in
          let p : a + i ≡ j = ground (arith, q, s) in
          let p' : start + a + i ≡ start + j = omega (arith, p) in
          rw (byte-append l m j, q)
            (k i (omega (arith, p, lt))
              ∙ (ap (λ x. landed (located handles x) (g i)) p'
                  ∙ ap (landed (located handles (start + j)))
                      (e i (omega (arith, p, lt)) ∙ ap f p)))
    ],
  )

  pub Lands-same :
      (f g : ℕ → ℕ × ℕ) (start n : ℕ) (l : List WriteCall)
      → ((j : ℕ) → j < n → f j ≡ g j)
      → Lands f start n l
      → Lands g start n l
  Lands-same f g start n l e (s, h) =
      (s, λ j lt. h j lt ∙ ap (landed (located handles (start + j))) (e j lt))

  module _ (outcomes : ℕ → List Pwrite) (head : ℕ → ℕ) where
    -- With `got` of the `size` bytes written, the call of number `k` failed: the doWrite of just what
    -- the handle at that place covers of the bytes that are left in the same buffer.
    abbrev pub Failed : (ℕ → ℕ × ℕ) → ℕ → ℕ → ℕ → ℕ → Type 0
    Failed source start got size k =
        (got < size)
        × (path : ℕ) × (covered : ℕ) × (real : ℕ) × (l : List Extent) × (get_handle handles
              (start + got) (min (size - got) (common_buf_size - (source got).1))
            ≡ some (path, covered, real))
        × (do_write (outcomes k) (head (source got).0 + (source got).1) covered real
            ≡ some (false, l))

    -- How it ended, after `m` calls that succeeded from the one of number `n0` on: `n` is the next.
    abbrev pub Ended : Bool → (ℕ → ℕ × ℕ) → ℕ → ℕ → ℕ → ℕ → ℕ → ℕ → Type 0
    Ended true source start got size n0 m n = (got ≡ size) × (n ≡ n0 + m)
    Ended false source start got size n0 m n =
        (n ≡ suc (n0 + m)) × Failed source start got size (n0 + m)

    -- A part of `size` bytes: the calls that succeeded land a first part of it, all of it unless the
    -- next doWrite failed.
    abbrev pub PartDone : ℕ → (ℕ → ℕ × ℕ) → ℕ → ℕ → Part → Type 0
    PartDone n0 source start size none = ⊥
    PartDone n0 source start size (some (ok, start', n, l)) =
        (got : ℕ) × ((got ≤ size)
          × (Lands source start got l
              × ((start' ≡ start + got) × Ended ok source start got size n0 (length l) n)))

    -- What fails behind a first part fails in the whole.
    Failed-after :
        (f g : ℕ → ℕ × ℕ) (start size a got n0 m m' : ℕ)
        → a ≤ size
        → ((j : ℕ) → j < size - a → g j ≡ f (a + j))
        → Failed g (start + a) got (size - a) (n0 + m + m')
        → Failed f start (a + got) size (n0 + (m + m'))
    Failed-after f g start size a got n0 m m' le e (lt, path, covered, real, l, h, d) =
        let here : g got ≡ f (a + got) = e got lt in
        let place : start + a + got ≡ start + (a + got) = omega arith in
        let left : size - a - got ≡ size - (a + got) = omega arith in
        let call : n0 + m + m' ≡ n0 + (m + m') = omega arith in
        (
          omega (arith, lt, le),
          path,
          covered,
          real,
          l,
          rw (← place, ← left, ← here) h,
          rw (← call, ← here) d,
        )

    pub after-PartDone :
        (n0 : ℕ) (f g : ℕ → ℕ × ℕ) (start size a : ℕ) (l : List WriteCall) (o : Part)
        → a ≤ size
        → Lands f start a l
        → ((j : ℕ) → j < size - a → g j ≡ f (a + j))
        → PartDone (n0 + length l) g (start + a) (size - a) o
        → PartDone n0 f start size (after_calls l o)
    after-PartDone n0 f g start size a l none le h e p = p
    after-PartDone n0 f g start size a l (some (true, start', n, m)) le h e
          (got, (b, (k, (s, (z, c))))) =
        (
          a + got,
          (
            omega (arith, le, b),
            (
              Lands-append f g start a got l m h k (λ j lt. e j (omega (arith, lt, b))),
              (omega (arith, s), (omega (arith, z, le), omega (arith, c, length-append l m))),
            ),
          ),
        )
    after-PartDone n0 f g start size a l (some (false, start', n, m)) le h e
          (got, (b, (k, (s, (c, z))))) =
        (
          a + got,
          (
            omega (arith, le, b),
            (
              Lands-append f g start a got l m h k (λ j lt. e j (omega (arith, lt, b))),
              (
                omega (arith, s),
                (
                  omega (arith, c, length-append l m),
                  subst (Failed f start (a + got) size)
                      (ap (λ (q : ℕ). n0 + q) (sym (length-append l m)))
                      (Failed-after f g start size a got n0 (length l) (length m) le e z),
                ),
              ),
            ),
          ),
        )
