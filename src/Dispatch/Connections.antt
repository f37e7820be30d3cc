-- ===== src/Dispatch/Connections.antt =====
-- The connection map: adding, finding and deleting.
use sstoraged.Common.{
  ℕ, ◌≡◌, ◌≢◌, refl, ap, true, false, ◌==◌, ==_refl, if◌then◌else◌, none, some, List, [], ◌∷◌,
  arith, Bool-cases, inl, inr,
}
use sstoraged.Dispatch.{find_connection, add_connection, del_connection, erase_connection}

module _ {C : Type 0} where
  find-erase_connection :
      (fd k : ℕ) (l : List (ℕ × C))
      → (k ≡ fd → find_connection k (erase_connection fd l) ≡ none)
        × (k ≢ fd → find_connection k (erase_connection fd l) ≡ find_connection k l)
  unfolding find_connection
  find-erase_connection fd k [] = (λ _. refl, λ _. refl)
  find-erase_connection fd k ((j, c) ∷ l) =
      let (same, other) = find-erase_connection fd k l in
      elim (Bool-cases (j == fd)) [
        | inl e ↦
            rw e (same, λ n. let no : (j == k) ≡ false = ground (arith, e, n) in rw no (other n))
        | inr e ↦ rw e (
          λ q. (let no : (j == k) ≡ false = ground (arith, e, q) in rw no (same q)),
          λ n. ap (λ r. if j == k then some c else r) (other n),
        )
      ]

  erase-absent :
      (fd : ℕ) (l : List (ℕ × C)) → find_connection fd l ≡ none → erase_connection fd l ≡ l
  unfolding find_connection
  erase-absent fd [] h = refl
  erase-absent fd ((j, c) ∷ l) h = elim (Bool-cases (j == fd)) [
    | inl e ↦ let bad = rw e at h in cc
    | inr e ↦ rw e (ap (λ r. (j, c) ∷ r) (erase-absent fd l (rw e at h)))
  ]

  add_fresh :
      (fd : ℕ) (c : C) (l : List (ℕ × C))
      → find_connection fd l ≡ none
      → add_connection fd c l ≡ (true, (fd, c) ∷ l)
  unfolding add_connection
  add_fresh fd c l h = rw (add_connection, h)

  add_taken :
      (fd : ℕ) (c d : C) (l : List (ℕ × C))
      → find_connection fd l ≡ some d
      → add_connection fd c l ≡ (false, l)
  unfolding add_connection
  add_taken fd c d l h = rw (add_connection, h)

  del_absent :
      (fd : ℕ) (l : List (ℕ × C)) → find_connection fd l ≡ none → del_connection fd l ≡ (false, l)
  unfolding del_connection
  del_absent fd l h = rw (del_connection, h)

  del_there :
      (fd : ℕ) (d : C) (l : List (ℕ × C))
      → find_connection fd l ≡ some d
      → del_connection fd l ≡ (true, erase_connection fd l)
  unfolding del_connection
  del_there fd d l h = rw (del_connection, h)

  find_head : (fd : ℕ) (c : C) (l : List (ℕ × C)) → find_connection fd ((fd, c) ∷ l) ≡ some c
  unfolding find_connection
  find_head fd c l = rw (==_refl fd)

  find_tail :
      (fd k : ℕ) (c : C) (l : List (ℕ × C))
      → k ≢ fd
      → find_connection k ((fd, c) ∷ l) ≡ find_connection k l
  unfolding find_connection
  find_tail fd k c l n = let no : (fd == k) ≡ false = ground (arith, n) in rw no

  erase_head :
      (fd : ℕ) (c : C) (l : List (ℕ × C))
      → find_connection fd l ≡ none
      → erase_connection fd ((fd, c) ∷ l) ≡ l
  erase_head fd c l h = rw (==_refl fd) (erase-absent fd l h)

  -- A connection whose socket is free is added: it is found under its socket, every other socket
  -- finds what it found before, and deleting it gives the map back. A socket that is taken is
  -- refused, and the map stays. After a deletion that succeeds the socket is free, and every other
  -- one finds what it found before; a deletion fails exactly where there is nothing to delete.
  pub connections_lem :
      (fd : ℕ) (c : C) (l : List (ℕ × C))
      → (find_connection fd l ≡ none
          → ((add_connection fd c l).0 ≡ true)
            × (find_connection fd (add_connection fd c l).1 ≡ some c)
            × ((k : ℕ) → k ≢ fd → find_connection k (add_connection fd c l).1 ≡ find_connection k l)
            × (del_connection fd (add_connection fd c l).1 ≡ (true, l))
            × (del_connection fd l ≡ (false, l)))
        × ((d : C)
            → find_connection fd l ≡ some d
            → (add_connection fd c l ≡ (false, l))
              × ((del_connection fd l).0 ≡ true)
              × (find_connection fd (del_connection fd l).1 ≡ none)
              × ((k : ℕ)
                  → k ≢ fd
                  → find_connection k (del_connection fd l).1 ≡ find_connection k l))
  connections_lem fd c l = (free, taken)
    where
      free :
          find_connection fd l ≡ none
          → ((add_connection fd c l).0 ≡ true)
            × (find_connection fd (add_connection fd c l).1 ≡ some c)
            × ((k : ℕ) → k ≢ fd → find_connection k (add_connection fd c l).1 ≡ find_connection k l)
            × (del_connection fd (add_connection fd c l).1 ≡ (true, l))
            × (del_connection fd l ≡ (false, l))
      free h =
          rw
            (
              add_fresh fd c l h,
              del_there fd c ((fd, c) ∷ l) (find_head fd c l),
              erase_head fd c l h,
              del_absent fd l h,
            )
            (refl, find_head fd c l, λ k n. find_tail fd k c l n, refl, refl)

      taken :
          (d : C)
          → find_connection fd l ≡ some d
          → (add_connection fd c l ≡ (false, l))
            × ((del_connection fd l).0 ≡ true)
            × (find_connection fd (del_connection fd l).1 ≡ none)
            × ((k : ℕ) → k ≢ fd → find_connection k (del_connection fd l).1 ≡ find_connection k l)
      taken d h =
          rw (add_taken fd c d l h, del_there fd d l h)
            (
              refl,
              refl,
              (find-erase_connection fd fd l).0 refl,
              λ k n. (find-erase_connection fd k l).1 n,
            )
