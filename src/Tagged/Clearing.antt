-- ===== src/Tagged/Clearing.antt =====
-- remove and clear of TaggedConfigurator.
use sstoraged.Common.{
  ℕ, zero, suc, ◌<◌, ◌≡◌, refl, sym, subst, ◌∙◌, ap, true, false, ltb, some, List, [], ◌∷◌, length,
  arith, add64, sub64,
}
use sstoraged.Tagged.{
  JsonArray, JsonLaws, ConfigInfo, InfoLaws, Tagged, del_info, begin_infos, current, remove,
  clear_loop, clear,
}
use sstoraged.Tagged.Entries.{Keeps, Keeps-size, del_info_lem}
use sstoraged.Tagged.Lookup.{AllUsable, begin_none, begin_some}

module _ {A V I K : Type 0} (J : JsonArray A V) (N : ConfigInfo V I K) (L : JsonLaws J)
    (R : InfoLaws N) where
  -- `remove` at the first entry leaves the iterator at the next.
  remove_first :
      (t : Tagged A I) (x : I) (m : List I)
      → Keeps J N L t.root (x ∷ m)
      → t.index ≡ 0
      → Keeps J N L (remove J N t).1.root m
        × ((remove J N t).1.index ≡ 0)
        × ((remove J N t).0 ≡ ltb 0 (length m))
  unfolding remove
  remove_first t x m s z =
      let left = (del_info_lem J N L 0 t.root (x ∷ m) s (omega arith)).1 in
      let wraps : add64 (sub64 t.index 1) 1 ≡ 0 = ap (λ (n : ℕ). add64 (sub64 n 1) 1) z in
      let gone = subst (λ (n : ℕ). Keeps J N L (del_info J N n t.root).1 m) (sym z) left in
      (
        gone,
        wraps,
        ap (λ (n : ℕ). ltb n (J.size (del_info J N t.index t.root).1)) wraps
            ∙ ap (ltb 0) (Keeps-size J N L (del_info J N t.index t.root).1 m gone),
      )

  clear_last :
      (n : ℕ) (t : Tagged A I)
      → (remove J N t).0 ≡ false
      → clear_loop J N (suc n) t ≡ some (remove J N t).1
  unfolding clear_loop
  clear_last n t e = rw (clear_loop, e)

  clear_more :
      (n : ℕ) (t : Tagged A I)
      → (remove J N t).0 ≡ true
      → clear_loop J N (suc n) t ≡ clear_loop J N n (remove J N t).1
  unfolding clear_loop
  clear_more n t e = rw (clear_loop, e)

  -- The loop of `clear`, with fuel for each entry.
  clear_loop_lem :
      (n : ℕ) (t : Tagged A I) (x : I) (m : List I)
      → Keeps J N L t.root (x ∷ m)
      → t.index ≡ 0
      → length m < n
      → (t' : Tagged A I) × (clear_loop J N n t ≡ some t') × Keeps J N L t'.root []
  clear_loop_lem zero t x m s z f = absurd (omega (arith, f))
  clear_loop_lem (suc n) t x [] s z f =
      let (kept, zero_again, goes) = remove_first t x [] s z in
      ((remove J N t).1, clear_last n t goes, kept)
  clear_loop_lem (suc n) t x (y ∷ m) s z f =
      let (kept, zero_again, goes) = remove_first t x (y ∷ m) s z in
      let more : ltb 0 (suc (length m)) ≡ true = ground arith in
      let (t', e, none_left) =
        clear_loop_lem n (remove J N t).1 y m kept zero_again (omega (arith, f)) in
      (t', clear_more n t (goes ∙ more) ∙ e, none_left)

  clear_none : (t : Tagged A I) → begin_infos J N t ≡ some (false, t) → clear J N t ≡ some t
  unfolding clear
  clear_none t e = rw (clear, e)

  clear_begun :
      (t t' : Tagged A I)
      → begin_infos J N t ≡ some (true, t')
      → clear J N t ≡ clear_loop J N (J.size t.root) t'
  unfolding clear
  clear_begun t t' e = rw (clear, e)

  pub clear-Empty :
      (t : Tagged A I) (l : List I)
      → Keeps J N L t.root l
      → AllUsable N l
      → (t' : Tagged A I) × (clear J N t ≡ some t') × Keeps J N L t'.root []
  clear-Empty t [] s v = (t, clear_none t (begin_none J N L R t s), s)
  clear-Empty t (x ∷ m) s v =
      let first : Tagged A I = record t { index = 0; prev_index = 0; current_info = some x } in
      let (t', e, none_left) =
        clear_loop_lem (J.size t.root) first x m s refl
          (omega (arith, Keeps-size J N L t.root (x ∷ m) s)) in
      (t', clear_begun t first (begin_some J N L R t x m s v.0.is_valid) ∙ e, none_left)

  -- remove, at the first of two or more valid entries and after `begin`: the value holds the others, and
  -- the iterator is not at the end and stands at the first of these; but what it refers to is still the
  -- entry that was removed.
  pub remove_stale :
      (t : Tagged A I) (x y : I) (m : List I)
      → Keeps J N L t.root (x ∷ (y ∷ m))
      → N.valid x ≡ some true
      → (t' : Tagged A I) × (begin_infos J N t ≡ some (true, t'))
        × ((remove J N t').0 ≡ true)
        × ((remove J N t').1.index ≡ 0)
        × Keeps J N L (remove J N t').1.root (y ∷ m)
        × (current J N (remove J N t').1 ≡ some (x, (remove J N t').1))
  unfolding current remove
  remove_stale t x y m s v =
      let first : Tagged A I = record t { index = 0; prev_index = 0; current_info = some x } in
      let (kept, zero_again, goes) = remove_first first x (y ∷ m) s refl in
      let more : ltb 0 (suc (length m)) ≡ true = ground arith in
      (first, begin_some J N L R t x (y ∷ m) s v, goes ∙ more, zero_again, kept, refl)
