-- ===== src/Tagged/Lookup.antt =====
-- find of TaggedConfigurator against a search in the list of the entries.
use sstoraged.Common.{
  ℕ, zero, suc, ◌+◌, ◌<◌, ◌≡◌, refl, sym, subst, ◌∙◌, ap, Bool, true, false, ltb, ◌==◌,
  if◌then◌else◌, Bool-cases, inl, inr, Option, none, some, List, [], ◌∷◌, ◌++◌, length, All, arith,
  add64, ◌^◌,
}
use mathlib.Core.List.{append_assoc}
use mathlib.Core.Bool.{true≢false}
use sstoraged.Tagged.{
  JsonArray, JsonLaws, ConfigInfo, InfoLaws, Tagged, begin_infos, next_info, current, find_loop,
  find_info,
}
use sstoraged.Tagged.Entries.{Keeps, Keeps-size, Keeps-is_array, at_middle, next_length}

module _ {V I K : Type 0} (N : ConfigInfo V I K) where
  -- Whether an entry has a key.
  abbrev pub key_is : K → I → Bool
  key_is k x = elim (N.get_key x) [ none ↦ false | some key ↦ N.same key k ]

  -- The index of the first entry with a key, and whether there is one.
  abbrev pub position : K → List I → ℕ
  position k [] = 0
  position k (x ∷ l) = if key_is k x then 0 else suc (position k l)

  abbrev pub has_key : K → List I → Bool
  has_key k [] = false
  has_key k (x ∷ l) = if key_is k x then true else has_key k l

  -- An entry that is valid and has a key, without an exception.
  pub record Usable (x : I) : Type 0 where
    pub is_valid : N.valid x ≡ some true
    pub key : K
    pub has : N.get_key x ≡ some key

  pub key_is_lem : (k : K) (x : I) (u : Usable x) → key_is k x ≡ N.same u.key k
  key_is_lem k x u = rw (key_is, u.has)

  abbrev pub AllUsable : List I → Type 0
  AllUsable l = All Usable l

middle_length :
    {B : Type 0}
    → (l : List B) (x : B) (m : List B) → length (l ++ (x ∷ m)) ≡ length l + suc (length m)
middle_length [] x m = omega arith
middle_length (y ∷ l) x m = omega (arith, middle_length l x m)

module _ {A V I K : Type 0} (J : JsonArray A V) (N : ConfigInfo V I K) (L : JsonLaws J)
    (R : InfoLaws N) where
  -- An iterator at the entry behind `pre`: what it holds of before is not another entry.
  record At (pre : List I) (x : I) (m : List I) (t : Tagged A I) : Type 0 where
    kept : Keeps J N L t.root (pre ++ (x ∷ m))
    fits : Usable N x
    here : t.index ≡ length pre
    fresh : (t.index == t.prev_index) ≡ true → t.current_info ≡ some x

  -- What `find` gives: where it stands, with the same entries.
  pub record Finds (k : K) (n : ℕ) (m : List I) (t : Tagged A I) (r : Option (Bool × Tagged A I))
      : Type 0 where
    pub after : Tagged A I
    pub result : r ≡ some (has_key N k m, after)
    pub same_root : after.root ≡ t.root
    pub placed : has_key N k m ≡ true → after.index ≡ n + position N k m

  current_lem :
      (pre : List I) (x : I) (m : List I) (t : Tagged A I)
      → At pre x m t
      → (t' : Tagged A I) × (current J N t ≡ some (x, t'))
        × (t'.root ≡ t.root)
        × (t'.index ≡ t.index)
        × (t'.prev_index ≡ t.index)
  unfolding current
  current_lem pre x m t p =
      let entry = ap (J.entry t.root) p.here ∙ at_middle J N L t.root pre x m p.kept in
      let array =
        Keeps-is_array J N L t.root (pre ++ (x ∷ m)) p.kept
          (omega (arith, middle_length pre x m)) in
      elim (Bool-cases (t.index == t.prev_index)) [
        | inl same ↦ rw (same, p.fresh same) (t, refl, refl, refl, ground (arith, same))
        | inr other ↦
            rw (other, array, entry, R.restored x t.index p.fits.is_valid)
              (record t { current_info = some x; prev_index = t.index }, refl, refl, refl, refl)
      ]

  next_lem :
      (t : Tagged A I) (pre : List I) (x : I) (m : List I)
      → Keeps J N L t.root (pre ++ (x ∷ m))
      → t.index ≡ length pre
      → length (pre ++ (x ∷ m)) < 2 ^ 63
      → ((next_info J N t).0 ≡ ltb 0 (length m)) × ((next_info J N t).1.index ≡ length pre + 1)
  next_lem t pre x m kept here w =
      let size = Keeps-size J N L t.root (pre ++ (x ∷ m)) kept in
      let all = middle_length pre x m in
      let moved : add64 t.index 1 ≡ length pre + 1 = ground (arith, here, all, w) in
      (rw (moved, size, all) (ground arith), moved)

  -- The three ends of a round.
  module _ (n : ℕ) (k : K) (x : I) (key : K) (t t' : Tagged A I) (e : current J N t ≡ some (x, t'))
      (g : N.get_key x ≡ some key) where
    round_hit : N.same key k ≡ true → find_loop J N (suc n) k t ≡ some (true, t')
    unfolding find_loop
    round_hit h = rw (find_loop, e, g, h)

    round_last :
        N.same key k ≡ false
        → (next_info J N t').0 ≡ false
        → find_loop J N (suc n) k t ≡ some (false, (next_info J N t').1)
    unfolding find_loop
    round_last h l = rw (find_loop, e, g, h, l)

    round_more :
        N.same key k ≡ false
        → (next_info J N t').0 ≡ true
        → find_loop J N (suc n) k t ≡ find_loop J N n k (next_info J N t').1
    unfolding find_loop
    round_more h l = rw (find_loop, e, g, h, l)

  find_loop_lem :
      (n : ℕ) (k : K) (pre : List I) (x : I) (m : List I) (t : Tagged A I)
      → At pre x m t
      → AllUsable N m
      → length m < n
      → length (pre ++ (x ∷ m)) < 2 ^ 63
      → Finds k (length pre) (x ∷ m) t (find_loop J N n k t)
  find_loop_lem zero k pre x m t p v f w = absurd (omega (arith, f))
  find_loop_lem (suc n) k pre x m t p v f w =
      let (t', e, same_root, i, pv) = current_lem pre x m t p in
      let kept' = subst (λ a. Keeps J N L a (pre ++ (x ∷ m))) (sym same_root) p.kept in
      let here' = i ∙ p.here in
      let (goes, moved) = next_lem t' pre x m kept' here' w in
      let known : key_is N k x ≡ N.same p.fits.key k = key_is_lem N k x p.fits in
      elim (Bool-cases (N.same p.fits.key k)) [
        | inl hit ↦ record {
          after = t';
          result = round_hit n k x p.fits.key t t' e p.fits.has hit ∙ rw (known ∙ hit) refl;
          same_root = same_root;
          placed = λ _. rw (known ∙ hit) (omega (arith, here'));
        }
        | inr miss ↦
            elim m
                as (λ q.
                  AllUsable N q
                  → length q < suc n
                  → length (pre ++ (x ∷ q)) < 2 ^ 63
                  → Keeps J N L t'.root (pre ++ (x ∷ q))
                  → (next_info J N t').0 ≡ ltb 0 (length q)
                  → Finds k (length pre) (x ∷ q) t (find_loop J N (suc n) k t)) [
                    | [] ↦ λ v' f' w' q' g. record {
                      after = (next_info J N t').1;
                      result =
                          round_last n k x p.fits.key t t' e p.fits.has miss g
                          ∙ rw (known ∙ miss) refl;
                      same_root = same_root;
                      placed = λ h. absurd (true≢false (sym h ∙ rw (known ∙ miss) refl));
                    }
                    | y ∷ l ↦ λ v' f' w' q' g.
                        let rest =
                          find_loop_lem n k (pre ++ (x ∷ [])) y l (next_info J N t').1
                            (record {
                              kept =
                                  subst (λ q. Keeps J N L t'.root q)
                                    (sym (append_assoc pre (x ∷ []) (y ∷ l))) q';
                              fits = v'.0;
                              here = moved ∙ sym (next_length pre x);
                              fresh = λ h. absurd (ground (arith, h, moved, pv, p.here));
                            })
                            v'.1 (omega (arith, f'))
                            (subst (λ q. length q < 2 ^ 63)
                              (sym (append_assoc pre (x ∷ []) (y ∷ l))) w') in
                        let more : ltb 0 (suc (length l)) ≡ true = ground arith in
                        let same_key : has_key N k (x ∷ (y ∷ l)) ≡ has_key N k (y ∷ l) =
                          rw (known ∙ miss) refl in
                        record {
                          after = rest.after;
                          result =
                              round_more n k x p.fits.key t t' e p.fits.has miss (g ∙ more)
                              ∙ (rest.result ∙ ap (λ b. some (b, rest.after)) (sym same_key));
                          same_root = rest.same_root ∙ same_root;
                          placed = λ h.
                              rw (known ∙ miss)
                                (omega (arith, rest.placed (sym same_key ∙ h), next_length pre x));
                        }
                  ]
              v f w kept' goes
      ]

  pub begin_none : (t : Tagged A I) → Keeps J N L t.root [] → begin_infos J N t ≡ some (false, t)
  unfolding begin_infos
  begin_none t s =
      let none_there : (J.size t.root == 0) ≡ true = ground (arith, Keeps-size J N L t.root [] s) in
      rw none_there

  pub begin_some :
      (t : Tagged A I) (x : I) (m : List I)
      → Keeps J N L t.root (x ∷ m)
      → N.valid x ≡ some true
      → begin_infos J N t
        ≡ some (true, record t { index = 0; prev_index = 0; current_info = some x })
  unfolding begin_infos
  begin_some t x m s v =
      let some_there : (J.size t.root == 0) ≡ false =
        ground (arith, Keeps-size J N L t.root (x ∷ m) s) in
      let array = Keeps-is_array J N L t.root (x ∷ m) s (omega arith) in
      let entry = at_middle J N L t.root [] x m s in rw (some_there, array, entry, R.restored x 0 v)

  find_begun :
      (k : K) (t t' : Tagged A I)
      → begin_infos J N t ≡ some (true, t')
      → find_info J N k t ≡ find_loop J N (J.size t.root) k t'
  unfolding find_info
  find_begun k t t' e = rw (find_info, e)

  find_ended :
      (k : K) (t : Tagged A I)
      → begin_infos J N t ≡ some (false, t)
      → find_info J N k t ≡ some (false, t)
  unfolding find_info
  find_ended k t e = rw (find_info, e)

  -- `find` on the entries of a value: it says whether one has the key, and stands at the first such.
  pub find_lem :
      (k : K) (l : List I) (t : Tagged A I)
      → Keeps J N L t.root l
      → AllUsable N l
      → length l < 2 ^ 63
      → Finds k 0 l t (find_info J N k t)
  find_lem k [] t s v w = record {
    after = t;
    result = find_ended k t (begin_none t s);
    same_root = refl;
    placed = λ h. absurd (true≢false (sym h));
  }
  find_lem k (x ∷ m) t s v w =
      let r =
        find_loop_lem (J.size t.root) k [] x m
          (record t { index = 0; prev_index = 0; current_info = some x })
          (record { kept = s; fits = v.0; here = refl; fresh = λ h. refl }) v.1
          (omega (arith, Keeps-size J N L t.root (x ∷ m) s)) w in
      record {
        after = r.after;
        result = find_begun k t _ (begin_some t x m s v.0.is_valid) ∙ r.result;
        same_root = r.same_root;
        placed = r.placed;
      }
