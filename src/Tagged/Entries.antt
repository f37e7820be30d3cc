-- ===== src/Tagged/Entries.antt =====
-- What the implementation of TaggedConfigurator does to the entries that the JSON value holds.
use sstoraged.Common.{
  ℕ, zero, suc, ◌+◌, ◌<◌, ◌≡◌, refl, sym, subst, ◌∙◌, true, false, ◌==◌, some, List, [], ◌∷◌, ◌++◌,
  map, length, get_elem?, arith,
}
use mathlib.Core.List.{append_assoc, map-append, append-nil}
use sstoraged.Tagged.{JsonArray, JsonLaws, ConfigInfo, del_loop, del_info}

-- The entries without the one at an index.
abbrev pub erase_at : {B : Type 0} → ℕ → List B → List B
erase_at n [] = []
erase_at zero (x ∷ l) = l
erase_at (suc n) (x ∷ l) = x ∷ erase_at n l

map-length : {B C : Type 0} → (f : B → C) (l : List B) → length (map f l) ≡ length l
map-length f [] = refl
map-length f (x ∷ l) = omega (arith, map-length f l)

get_elem?-middle :
    {B C : Type 0}
    → (f : B → C) (l : List B) (x : B) (m : List B)
    → get_elem? (map f (l ++ (x ∷ m))) (length l) ≡ some (f x)
get_elem?-middle f [] x m = refl
get_elem?-middle f (y ∷ l) x m = get_elem?-middle f l x m

pub next_length : {B : Type 0} → (l : List B) (x : B) → length (l ++ (x ∷ [])) ≡ length l + 1
next_length [] x = omega arith
next_length (y ∷ l) x = omega (arith, next_length l x)

module _ {A V I K : Type 0} (J : JsonArray A V) (N : ConfigInfo V I K) (L : JsonLaws J) where
  -- The value holds these entries.
  abbrev pub Keeps : A → List I → Type 0
  Keeps a l = L.Stores a (map N.serialize l)

  pub Keeps-size : (a : A) (l : List I) → Keeps a l → J.size a ≡ length l
  Keeps-size a l s = L.sized a (map N.serialize l) s ∙ map-length N.serialize l

  pub Keeps-is_array : (a : A) (l : List I) → Keeps a l → 0 < length l → J.is_array a ≡ true
  Keeps-is_array a l s h =
      L.array a (map N.serialize l) s (omega (arith, h, map-length N.serialize l))

  pub Keeps-append :
      (a : A) (l : List I) (x : I) → Keeps a l → Keeps (J.append (N.serialize x) a) (l ++ (x ∷ []))
  Keeps-append a l x s =
      subst (λ q. L.Stores (J.append (N.serialize x) a) q) (sym (map-append N.serialize l (x ∷ [])))
        (L.appended a (map N.serialize l) (N.serialize x) s)

  pub at_middle :
      (a : A) (l : List I) (x : I) (m : List I)
      → Keeps a (l ++ (x ∷ m))
      → J.entry a (length l) ≡ N.serialize x
  at_middle a l x m s =
      L.at a (map N.serialize (l ++ (x ∷ m))) (length l) (N.serialize x) s
        (get_elem?-middle N.serialize l x m)

  -- One round of the loop that copies its entry.
  copied :
      (tmp : A) (c : ℕ) (pre : List I) (x : I) (m out : List I) (a : A)
      → c ≡ length pre
      → Keeps tmp (pre ++ (x ∷ m))
      → Keeps a out
      → Keeps tmp ((pre ++ (x ∷ [])) ++ m) × Keeps (J.append (J.entry tmp c) a) (out ++ (x ∷ []))
  copied tmp c pre x m out a e s o = (
    subst (λ q. Keeps tmp q) (sym (append_assoc pre (x ∷ []) m)) s,
    rw (e, at_middle tmp pre x m s) (Keeps-append a out x o),
  )

  -- Behind the key, all is copied.
  copied_all :
      (tmp : A) (key c : ℕ) (pre m out : List I) (a : A)
      → c ≡ length pre
      → key < c
      → Keeps tmp (pre ++ m)
      → Keeps a out
      → Keeps (del_loop J N tmp key c (length m) a).1 (out ++ m)
  unfolding del_loop
  copied_all tmp key c pre [] out a e h s o = subst (λ q. Keeps a q) (sym (append-nil out)) o
  copied_all tmp key c pre (x ∷ m) out a e h s o =
      let other : (c == key) ≡ false = ground (arith, h) in
      let (s', o') = copied tmp c pre x m out a e s o in
      let rest =
        copied_all tmp key (c + 1) (pre ++ (x ∷ [])) m (out ++ (x ∷ []))
          (J.append (J.entry tmp c) a) (omega (arith, e, next_length pre x)) (omega (arith, h)) s'
          o' in
      rw other (
        subst
          (λ q. Keeps (del_loop J N tmp key (c + 1) (length m) (J.append (J.entry tmp c) a)).1 q)
          (append_assoc out (x ∷ []) m) rest)

  copied_but :
      (tmp : A) (key c j : ℕ) (pre m out : List I) (a : A)
      → c ≡ length pre
      → key ≡ c + j
      → j < length m
      → Keeps tmp (pre ++ m)
      → Keeps a out
      → ((del_loop J N tmp key c (length m) a).0 ≡ true)
        × Keeps (del_loop J N tmp key c (length m) a).1 (out ++ erase_at j m)
  unfolding del_loop
  copied_but tmp key c j pre [] out a e k h s o = absurd (omega (arith, h))
  copied_but tmp key c zero pre (x ∷ m) out a e k h s o =
      let here : (c == key) ≡ true = ground (arith, k) in
      let s' = subst (λ q. Keeps tmp q) (sym (append_assoc pre (x ∷ []) m)) s in
      rw here (
        refl,
        copied_all tmp key (c + 1) (pre ++ (x ∷ [])) m out a (omega (arith, e, next_length pre x))
            (omega (arith, k)) s' o,
      )
  copied_but tmp key c (suc j) pre (x ∷ m) out a e k h s o =
      let other : (c == key) ≡ false = ground (arith, k) in
      let (s', o') = copied tmp c pre x m out a e s o in
      let rest =
        copied_but tmp key (c + 1) j (pre ++ (x ∷ [])) m (out ++ (x ∷ []))
          (J.append (J.entry tmp c) a) (omega (arith, e, next_length pre x)) (omega (arith, k))
          (omega (arith, h)) s' o' in
      rw other (
        rest.0,
        subst
            (λ q. Keeps (del_loop J N tmp key (c + 1) (length m) (J.append (J.entry tmp c) a)).1 q)
            (append_assoc out (x ∷ []) (erase_at j m)) rest.1,
      )

  -- `del` of the implementation takes out the entry at an index.
  pub del_info_lem :
      (key : ℕ) (a : A) (l : List I)
      → Keeps a l
      → key < length l
      → ((del_info J N key a).0 ≡ true) × Keeps (del_info J N key a).1 (erase_at key l)
  del_info_lem key a l s h = rw (Keeps-size a l s) (
      copied_but a key 0 key [] l [] (J.clear a) refl (omega arith) h s
        (L.cleared a (map N.serialize l) s))
