-- ===== src/Tagged/Plain.antt =====
-- A plain list of entries as a collection, with what TaggedConfigurator offers.
use sstoraged.Common.{
  ◌+◌, ◌≤◌, ◌<◌, ◌≡◌, refl, sym, ◌∙◌, ap, Bool, true, false, if◌then◌else◌, Bool-cases,
  Option-cases, ℕ, inl, inr, Option, none, some, List, [], ◌∷◌, ◌++◌, length, arith,
}
use mathlib.Core.Bool.{true≢false}
use sstoraged.Tagged.{ConfigInfo, InfoLaws}
use sstoraged.Tagged.Entries.{erase_at, next_length}
use sstoraged.Tagged.Lookup.{key_is, key_is_lem, position, has_key, Usable, AllUsable}

-- What is asked of a collection.
pub data Op (I K : Type 0) : Type 0 where
  op_add : I → Op I K
  op_del : K → Op I K
  op_find : K → Op I K
  op_clear : Op I K

-- The same on a list: what is answered, and the list after.
module _ {V I K : Type 0} (N : ConfigInfo V I K) where
  abbrev pub erase : K → List I → List I
  erase k [] = []
  erase k (x ∷ l) = if key_is N k x then l else x ∷ erase k l

  -- An addition ends in an exception where the key does, or, for a new key, the validity.
  abbrev pub on_list : Op I K → List I → Option (Bool × List I)
  on_list (op_add x) l = elim (N.get_key x) [
    | none ↦ none
    | some k ↦ elim (has_key N k l) [
      | true ↦ some (false, l)
      | false ↦ elim (N.valid x) [
        | none ↦ none
        | some true ↦ some (true, l ++ (x ∷ []))
        | some false ↦ some (false, l)
      ]
    ]
  ]
  on_list (op_del k) l = some (has_key N k l, erase k l)
  on_list (op_find k) l = some (has_key N k l, l)
  on_list op_clear l = some (true, [])

  abbrev pub on_lists : List (Op I K) → List I → Option (List Bool × List I)
  on_lists [] l = some ([], l)
  on_lists (o ∷ os) l = elim (on_list o l) [
    | none ↦ none
    | some (b, l') ↦ elim (on_lists os l') [ none ↦ none | some (bs, l'') ↦ some (b ∷ bs, l'') ]
  ]

  pub on_keyless : (x : I) (l : List I) → N.get_key x ≡ none → on_list (op_add x) l ≡ none
  on_keyless x l g = rw (on_list, g)

  module _ (x : I) (k : K) (l : List I) (g : N.get_key x ≡ some k) where
    pub on_there : has_key N k l ≡ true → on_list (op_add x) l ≡ some (false, l)
    on_there h = rw (on_list, g, h)

    pub on_thrown : has_key N k l ≡ false → N.valid x ≡ none → on_list (op_add x) l ≡ none
    on_thrown h v = rw (on_list, g, h, v)

    pub on_bad :
        has_key N k l ≡ false → N.valid x ≡ some false → on_list (op_add x) l ≡ some (false, l)
    on_bad h v = rw (on_list, g, h, v)

    pub on_good :
        has_key N k l ≡ false
        → N.valid x ≡ some true
        → on_list (op_add x) l ≡ some (true, l ++ (x ∷ []))
    on_good h v = rw (on_list, g, h, v)

  pub position-inside : (k : K) (l : List I) → has_key N k l ≡ true → position N k l < length l
  position-inside k [] h = absurd (true≢false (sym h))
  position-inside k (x ∷ l) h = elim (Bool-cases (key_is N k x)) [
    | inl hit ↦ rw hit (omega arith)
    | inr miss ↦
        let rest : has_key N k l ≡ true = sym (rw miss refl) ∙ h in
        rw miss (omega (arith, position-inside k l rest))
  ]

  pub erase-position : (k : K) (l : List I) → erase_at (position N k l) l ≡ erase k l
  erase-position k [] = refl
  erase-position k (x ∷ l) = elim (Bool-cases (key_is N k x)) [
    | inl hit ↦ rw hit refl
    | inr miss ↦ rw miss (ap (λ q. x ∷ q) (erase-position k l))
  ]

  pub erase_absent : (k : K) (l : List I) → has_key N k l ≡ false → erase k l ≡ l
  erase_absent k [] h = refl
  erase_absent k (x ∷ l) h = elim (Bool-cases (key_is N k x)) [
    | inl hit ↦ absurd (true≢false (sym (rw hit refl) ∙ h))
    | inr miss ↦
        let rest : has_key N k l ≡ false = sym (rw miss refl) ∙ h in
        rw miss (ap (λ q. x ∷ q) (erase_absent k l rest))
  ]

  pub valid-erase : (k : K) (l : List I) → AllUsable N l → AllUsable N (erase k l)
  valid-erase k [] v = v
  valid-erase k (x ∷ l) v = elim (Bool-cases (key_is N k x)) [
    | inl hit ↦ rw hit v.1
    | inr miss ↦ rw miss (v.0, valid-erase k l v.1)
  ]

  pub valid-append : (l : List I) (x : I) → AllUsable N l → Usable N x → AllUsable N (l ++ (x ∷ []))
  valid-append [] x v w = (w, tt)
  valid-append (y ∷ l) x v w = (v.0, valid-append l x v.1 w)

  erase_length : (k : K) (l : List I) → length (erase k l) ≤ length l
  erase_length k [] = omega arith
  erase_length k (x ∷ l) = elim (Bool-cases (key_is N k x)) [
    | inl hit ↦ rw hit (omega arith)
    | inr miss ↦ rw miss (omega (arith, erase_length k l))
  ]

  abbrev pub NoLonger : ℕ → Option (Bool × List I) → Type 0
  NoLonger n none = Unit
  NoLonger n (some (b, l)) = length l ≤ n

  -- A step makes the list longer by one entry at most.
  pub op_length : (o : Op I K) (l : List I) → NoLonger (length l + 1) (on_list o l)
  op_length (op_add x) l = elim (Option-cases (N.get_key x)) [
    | inl g ↦ rw (NoLonger, g) tt
    | inr (k, g) ↦ elim (Bool-cases (has_key N k l)) [
      | inl there ↦ rw (NoLonger, g, there) (omega arith)
      | inr new ↦ elim (Option-cases (N.valid x)) [
        | inl thrown ↦ rw (NoLonger, g, new, thrown) tt
        | inr (true, good) ↦ rw (NoLonger, g, new, good) (omega (arith, next_length l x))
        | inr (false, bad) ↦ rw (NoLonger, g, new, bad) (omega arith)
      ]
    ]
  ]
  op_length (op_del k) l = omega (arith, erase_length k l)
  op_length (op_find k) l = omega arith
  op_length op_clear l = omega arith

  -- An entry with a new key, added and erased again.
  module _ (R : InfoLaws N) (x : I) (u : Usable N x) where
    own_key : key_is N u.key x ≡ true
    own_key = key_is_lem N u.key x u ∙ R.same_self u.key

    pub has_key-append : (l : List I) → has_key N u.key (l ++ (x ∷ [])) ≡ true
    has_key-append [] = rw own_key
    has_key-append (y ∷ l) = elim (Bool-cases (key_is N u.key y)) [
      | inl hit ↦ rw hit
      | inr miss ↦ rw (miss, has_key-append l)
    ]

    pub erase-append : (l : List I) → has_key N u.key l ≡ false → erase u.key (l ++ (x ∷ [])) ≡ l
    erase-append [] h = rw own_key
    erase-append (y ∷ l) h = elim (Bool-cases (key_is N u.key y)) [
      | inl hit ↦ absurd (true≢false (sym (rw hit refl) ∙ h))
      | inr miss ↦
          let rest : has_key N u.key l ≡ false = sym (rw miss refl) ∙ h in
          rw (miss, erase-append l rest)
    ]

    pub add_del_steps :
        (l : List I)
        → has_key N u.key l ≡ false
        → on_lists (op_add x ∷ (op_find u.key ∷ (op_del u.key ∷ []))) l
          ≡ some (true ∷ (true ∷ (true ∷ [])), l)
    add_del_steps l new =
        rw (on_lists, on_good x u.key l u.has new u.is_valid, has_key-append l, erase-append l new)
