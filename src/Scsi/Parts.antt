-- ===== src/Scsi/Parts.antt =====
-- Data segments that are made of parts, one behind the other: which of them fit, and where their bytes
-- are.
use sstoraged.Common.{
  ℕ, ◌+◌, ◌-◌, ◌≤◌, ◌<◌, ◌≡◌, refl, sym, ◌∙◌, ap, inl, inr, true, false, ltb, if◌then◌else◌,
  Bool-cases, Option, List, [], ◌∷◌, ◌++◌, length, length-append, get_elem?, get_elem?-append_left,
  get_elem?-append_right, get_elem?_past, arith,
}
use sstoraged.Scsi.{one_byte, overlay}

-- The parts that lie before the limit, from `o` on, until one does not; and the length of all.
abbrev pub fitting : ℕ → ℕ → List (List (Option ℕ)) → List (Option ℕ)
fitting limit o [] = []
fitting limit o (p ∷ l) =
    let rest = fitting limit (o + length p) l in if ltb limit (o + length p) then [] else p ++ rest

abbrev pub length_all : List (List (Option ℕ)) → ℕ
length_all [] = 0
length_all (p ∷ l) = length p + length_all l

-- An area with a list written over it, where what the list does not set is left.
abbrev pub with_bytes : ℕ → List (Option ℕ) → (ℕ → ℕ) → ℕ → ℕ
with_bytes o l a = overlay a o l a

module _ (o : ℕ) (l : List (Option ℕ)) (a : ℕ → ℕ) where
  pub with_bytes_before : (i : ℕ) → i < o → with_bytes o l a i ≡ a i
  unfolding overlay
  with_bytes_before i h = ground arith

  pub with_bytes_within :
      (i j : ℕ) → i ≡ o + j → with_bytes o l a i ≡ one_byte (a i) (a i) (get_elem? l j)
  unfolding overlay
  with_bytes_within i j h =
      let late : ltb i o ≡ false = ground arith in
      let place : i - o ≡ j = omega arith in rw (late, place)

  pub with_bytes_past : (i : ℕ) → o + length l ≤ i → with_bytes o l a i ≡ a i
  with_bytes_past i h =
      rw (
        with_bytes_within i (i - o) (omega (arith, h)),
        get_elem?_past l (i - o) (omega (arith, h)),
      )

  -- A byte depends on what lay under it only.
  pub with_bytes_ap : (b : ℕ → ℕ) (i : ℕ) → a i ≡ b i → with_bytes o l a i ≡ with_bytes o l b i
  unfolding overlay
  with_bytes_ap b i e = rw e

pub with_bytes_none : (o : ℕ) (a : ℕ → ℕ) (i : ℕ) → with_bytes o [] a i ≡ a i
unfolding overlay
with_bytes_none o a i = ground arith

-- Two lists, one behind the other.
pub with_bytes-append :
    (o : ℕ) (p q : List (Option ℕ)) (a : ℕ → ℕ) (i : ℕ)
    → with_bytes o (p ++ q) a i ≡ with_bytes (o + length p) q (with_bytes o p a) i
with_bytes-append o p q a i = elim (Bool-cases (ltb i o)) [
  | inl early ↦
      with_bytes_before o (p ++ q) a i (ground arith)
      ∙ sym (
          with_bytes_before (o + length p) q (with_bytes o p a) i (ground arith)
          ∙ with_bytes_before o p a i (ground arith))
  | inr late ↦ elim (Bool-cases (ltb i (o + length p))) [
    | inl within ↦
        with_bytes_within o (p ++ q) a i (i - o) (ground arith)
        ∙ (ap (one_byte (a i) (a i)) (get_elem?-append_left p q (i - o) (ground arith))
            ∙ sym (
                with_bytes_before (o + length p) q (with_bytes o p a) i (ground arith)
                ∙ with_bytes_within o p a i (i - o) (ground arith)))
    | inr past ↦
        with_bytes_within o (p ++ q) a i (i - o) (ground arith)
        ∙ (ap (one_byte (a i) (a i))
              (get_elem?-append_right p q (i - o) (i - o - length p) (ground arith))
            ∙ sym (
                with_bytes_ap (o + length p) q (with_bytes o p a) a i
                  (with_bytes_past o p a i (ground arith))
                ∙ with_bytes_within (o + length p) q a i (i - o - length p) (ground arith)))
  ]
]

-- The parts that fit end at the limit or before it.
pub length-fitting :
    (limit o : ℕ) (l : List (List (Option ℕ))) → o ≤ limit → o + length (fitting limit o l) ≤ limit
length-fitting limit o [] h = omega (arith, h)
length-fitting limit o (p ∷ l) h = elim (Bool-cases (ltb limit (o + length p))) [
  | inl far ↦ rw far (omega (arith, h))
  | inr near ↦ rw near (
      let rest = length-fitting limit (o + length p) l (ground arith) in
      omega (arith, rest, length-append p (fitting limit (o + length p) l)))
]

pub fitting_omits :
    (limit o : ℕ) (p : List (Option ℕ)) (l : List (List (Option ℕ)))
    → limit < o + length p
    → fitting limit o (p ∷ l) ≡ []
fitting_omits limit o p l h = let far : ltb limit (o + length p) ≡ true = ground arith in rw far

pub fitting_takes :
    (limit o : ℕ) (p : List (Option ℕ)) (l : List (List (Option ℕ)))
    → o + length p ≤ limit
    → fitting limit o (p ∷ l) ≡ p ++ fitting limit (o + length p) l
fitting_takes limit o p l h = let near : ltb limit (o + length p) ≡ false = ground arith in rw near

-- Where nothing lies before the limit any more, nothing fits.
pub fitting_past : (limit o : ℕ) (l : List (List (Option ℕ))) → limit < o → fitting limit o l ≡ []
fitting_past limit o [] h = refl
fitting_past limit o (p ∷ l) h = let far : ltb limit (o + length p) ≡ true = ground arith in rw far
