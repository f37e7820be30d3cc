-- ===== src/Tagged/Contents.antt =====
-- The operations of TaggedConfigurator against those of a plain list of entries.
use sstoraged.Common.{
  ℕ, ◌+◌, ◌^◌, ◌<◌, ◌≤◌, ◌≡◌, refl, sym, subst, ◌∙◌, ap, Bool, true, false, Bool-cases,
  Option-cases, inl, inr, Option, none, some, List, [], ◌∷◌, length, arith,
}
use sstoraged.Tagged.{
  JsonArray, JsonLaws, ConfigInfo, InfoLaws, Tagged, del_info, find_info, add, del, clear,
}
use sstoraged.Tagged.Entries.{Keeps, Keeps-append, erase_at, del_info_lem}
use sstoraged.Tagged.Lookup.{position, has_key, Usable, AllUsable, find_lem}
use sstoraged.Tagged.Plain.{
  Op, op_add, op_del, op_find, op_clear, erase, on_list, on_lists, on_keyless, on_there, on_thrown,
  on_bad, on_good, position-inside, erase-position, erase_absent, valid-erase, valid-append,
  NoLonger, op_length, add_del_steps,
}
use sstoraged.Tagged.Clearing.{clear-Empty}

module _ {A V I K : Type 0} (J : JsonArray A V) (N : ConfigInfo V I K) where
  abbrev pub run_op : Op I K → Tagged A I → Option (Bool × Tagged A I)
  run_op (op_add x) t = add J N x t
  run_op (op_del k) t = del J N k t
  run_op (op_find k) t = find_info J N k t
  run_op op_clear t = elim (clear J N t) [ none ↦ none | some t' ↦ some (true, t') ]

  -- One after the other; an exception ends it.
  unfoldable pub run_ops : List (Op I K) → Tagged A I → Option (List Bool × Tagged A I)
  run_ops [] t = some ([], t)
  run_ops (o ∷ os) t = elim (run_op o t) [
    | none ↦ none
    | some (b, t') ↦ elim (run_ops os t') [ none ↦ none | some (bs, t'') ↦ some (b ∷ bs, t'') ]
  ]

module _ {A V I K : Type 0} (J : JsonArray A V) (N : ConfigInfo V I K) (L : JsonLaws J)
    (R : InfoLaws N) where
  pub record Answered {B : Type 0} (b : B) (l : List I) (r : Option (B × Tagged A I)) : Type 0 where
    pub after : Tagged A I
    pub result : r ≡ some (b, after)
    pub kept : Keeps J N L after.root l
    pub fits : AllUsable N l

  -- The same answer and the same entries as the plain list, or an exception where that has one.
  abbrev pub Answers : {B : Type 0} → Option (B × List I) → Option (B × Tagged A I) → Type 0
  Answers none r = r ≡ none
  Answers (some (b, l)) r = Answered b l r

  -- `add` and `del` after the search.
  add_keyless : (x : I) (t : Tagged A I) → N.get_key x ≡ none → add J N x t ≡ none
  unfolding add
  add_keyless x t g = rw (add, g)

  module _ (x : I) (k : K) (t t' : Tagged A I) (g : N.get_key x ≡ some k) where
    add_there : find_info J N k t ≡ some (true, t') → add J N x t ≡ some (false, t')
    unfolding add
    add_there e = rw (add, g, e)

    add_thrown : find_info J N k t ≡ some (false, t') → N.valid x ≡ none → add J N x t ≡ none
    unfolding add
    add_thrown e v = rw (add, g, e, v)

    add_bad :
        find_info J N k t ≡ some (false, t')
        → N.valid x ≡ some false
        → add J N x t ≡ some (false, t')
    unfolding add
    add_bad e v = rw (add, g, e, v)

    add_good :
        find_info J N k t ≡ some (false, t')
        → N.valid x ≡ some true
        → add J N x t ≡ some (true, record t' { root = J.append (N.serialize x) t'.root })
    unfolding add
    add_good e v = rw (add, g, e, v)

  del_there :
      (k : K) (t t' : Tagged A I)
      → find_info J N k t ≡ some (true, t')
      → del J N k t
        ≡ some (
          (del_info J N t'.index t'.root).0,
          record t' { root = (del_info J N t'.index t'.root).1 },
        )
  unfolding del
  del_there k t t' e = rw (del, e)

  del_gone :
      (k : K) (t t' : Tagged A I)
      → find_info J N k t ≡ some (false, t')
      → del J N k t ≡ some (false, t')
  unfolding del
  del_gone k t t' e = rw (del, e)

  module _ (t : Tagged A I) (l : List I) (s : Keeps J N L t.root l) (v : AllUsable N l)
      (w : length l < 2 ^ 63) where
    find-Answers : (k : K) → Answered (has_key N k l) l (find_info J N k t)
    find-Answers k =
        let f = find_lem J N L R k l t s v w in
        record {
          after = f.after;
          result = f.result;
          kept = subst (λ a. Keeps J N L a l) (sym f.same_root) s;
          fits = v;
        }

    -- An addition whose key is not there.
    new-Answers :
        (x : I) (k : K) (t' : Tagged A I)
        → N.get_key x ≡ some k
        → has_key N k l ≡ false
        → Keeps J N L t'.root l
        → find_info J N k t ≡ some (false, t')
        → Answers (on_list N (op_add x) l) (add J N x t)
    new-Answers x k t' g new s' e = elim (Option-cases (N.valid x)) [
      | inl thrown ↦
          subst (λ q. Answers q (add J N x t)) (sym (on_thrown N x k l g new thrown))
            (add_thrown x k t t' g e thrown)
      | inr (true, good) ↦
          subst (λ q. Answers q (add J N x t)) (sym (on_good N x k l g new good))
            (record {
              after = record t' { root = J.append (N.serialize x) t'.root };
              result = add_good x k t t' g e good;
              kept = Keeps-append J N L t'.root l x s';
              fits = valid-append N l x v (record { is_valid = good; key = k; has = g });
            })
      | inr (false, bad) ↦
          subst (λ q. Answers q (add J N x t)) (sym (on_bad N x k l g new bad))
            (record { after = t'; result = add_bad x k t t' g e bad; kept = s'; fits = v })
    ]

    add-Answers : (x : I) → Answers (on_list N (op_add x) l) (add J N x t)
    add-Answers x = elim (Option-cases (N.get_key x)) [
      | inl g ↦ subst (λ q. Answers q (add J N x t)) (sym (on_keyless N x l g)) (add_keyless x t g)
      | inr (k, g) ↦
          let f = find_lem J N L R k l t s v w in
          let s' = subst (λ a. Keeps J N L a l) (sym f.same_root) s in
          elim (Bool-cases (has_key N k l)) [
            | inl there ↦
                subst (λ q. Answers q (add J N x t)) (sym (on_there N x k l g there))
                  (record {
                    after = f.after;
                    result =
                        add_there x k t f.after g (f.result ∙ ap (λ b. some (b, f.after)) there);
                    kept = s';
                    fits = v;
                  })
            | inr new ↦
                new-Answers x k f.after g new s' (f.result ∙ ap (λ b. some (b, f.after)) new)
          ]
    ]

    del-Answers : (k : K) → Answered (has_key N k l) (erase N k l) (del J N k t)
    del-Answers k =
        let f = find_lem J N L R k l t s v w in
        let s' = subst (λ a. Keeps J N L a l) (sym f.same_root) s in
        elim (Bool-cases (has_key N k l)) [
          | inl there ↦
              let placed = f.placed there in
              let at : f.after.index ≡ position N k l = omega (arith, placed) in
              let (told, left) =
                del_info_lem J N L f.after.index f.after.root l s'
                  (omega (arith, placed, position-inside N k l there)) in
              record {
                after = record f.after { root = (del_info J N f.after.index f.after.root).1 };
                result =
                    del_there k t f.after (f.result ∙ ap (λ b. some (b, f.after)) there)
                    ∙ rw (told, there) refl;
                kept =
                    subst (λ q. Keeps J N L (del_info J N f.after.index f.after.root).1 q)
                      (ap (λ (n : ℕ). erase_at n l) at ∙ erase-position N k l) left;
                fits = valid-erase N k l v;
              }
          | inr gone ↦ record {
            after = f.after;
            result =
                del_gone k t f.after (f.result ∙ ap (λ b. some (b, f.after)) gone)
                ∙ ap (λ b. some (b, f.after)) (sym gone);
            kept = subst (λ q. Keeps J N L f.after.root q) (sym (erase_absent N k l gone)) s';
            fits = valid-erase N k l v;
          }
        ]

  op-Answers :
      (o : Op I K) (t : Tagged A I) (l : List I)
      → Keeps J N L t.root l
      → AllUsable N l
      → length l < 2 ^ 63
      → Answers (on_list N o l) (run_op J N o t)
  op-Answers (op_add x) t l s v w = add-Answers t l s v w x
  op-Answers (op_del k) t l s v w = del-Answers t l s v w k
  op-Answers (op_find k) t l s v w = find-Answers t l s v w k
  op-Answers op_clear t l s v w =
      let (t', e, none_left) = clear-Empty J N L R t l s v in
      record { after = t'; result = rw (run_op, e); kept = none_left; fits = tt }

  run_thrown :
      (o : Op I K) (os : List (Op I K)) (t : Tagged A I)
      → run_op J N o t ≡ none
      → run_ops J N (o ∷ os) t ≡ none
  unfolding run_ops
  run_thrown o os t e = rw (run_ops, e)

  run_thrown_later :
      (o : Op I K) (os : List (Op I K)) (b : Bool) (t t' : Tagged A I)
      → run_op J N o t ≡ some (b, t')
      → run_ops J N os t' ≡ none
      → run_ops J N (o ∷ os) t ≡ none
  unfolding run_ops
  run_thrown_later o os b t t' e f = rw (run_ops, e, f)

  run_step :
      (o : Op I K) (os : List (Op I K)) (b : Bool) (bs : List Bool) (t t' t'' : Tagged A I)
      → run_op J N o t ≡ some (b, t')
      → run_ops J N os t' ≡ some (bs, t'')
      → run_ops J N (o ∷ os) t ≡ some (b ∷ bs, t'')
  unfolding run_ops
  run_step o os b bs t t' t'' e f = rw (run_ops, e, f)

  more-Answers :
      (o : Op I K) (os : List (Op I K)) (b : Bool) (t t' : Tagged A I)
      (r : Option (List Bool × List I))
      → run_op J N o t ≡ some (b, t')
      → Answers r (run_ops J N os t')
      → Answers
          (elim r [ none ↦ none | some (bs, l'') ↦ some (b ∷ bs, l'') ])
          (run_ops J N (o ∷ os) t)
  more-Answers o os b t t' none e a = run_thrown_later o os b t t' e a
  more-Answers o os b t t' (some (bs, l'')) e a = record {
    after = a.after;
    result = run_step o os b bs t t' a.after e a.result;
    kept = a.kept;
    fits = a.fits;
  }

  cons-Answers :
      (o : Op I K) (os : List (Op I K)) (t : Tagged A I) (n : ℕ) (r : Option (Bool × List I))
      → NoLonger N n r
      → Answers r (run_op J N o t)
      → ((t' : Tagged A I) (l' : List I)
          → Keeps J N L t'.root l'
          → AllUsable N l'
          → length l' ≤ n
          → Answers (on_lists N os l') (run_ops J N os t'))
      → Answers
          (elim r [
            | none ↦ none
            | some (b, l') ↦ elim (on_lists N os l') [
              | none ↦ none
              | some (bs, l'') ↦ some (b ∷ bs, l'')
            ]
          ])
          (run_ops J N (o ∷ os) t)
  cons-Answers o os t n none small a more = run_thrown o os t a
  cons-Answers o os t n (some (b, l')) small a more =
      more-Answers o os b t a.after (on_lists N os l') a.result
        (more a.after l' a.kept a.fits small)

  -- Any sequence of additions, removals by key, searches by key and clearings, on a collection whose
  -- value holds entries that are valid and have a key, fewer than 2 ^ 63 with as many more as the
  -- sequence has steps: where the key of an entry to add ends in an exception, or, for a new key, its
  -- test of validity, the sequence ends there with the exception, and nowhere else. Otherwise each step
  -- answers what the plain list does, and the value then holds just the entries of the list, all of
  -- them valid and with a key.
  pub run_ops-Answers :
      (os : List (Op I K)) (t : Tagged A I) (l : List I)
      → Keeps J N L t.root l
      → AllUsable N l
      → length l + length os < 2 ^ 63
      → Answers (on_lists N os l) (run_ops J N os t)
  unfolding run_ops
  run_ops-Answers [] t l s v w = record { after = t; result = refl; kept = s; fits = v }
  run_ops-Answers (o ∷ os) t l s v w =
      cons-Answers o os t (length l + 1) (on_list N o l) (op_length N o l)
        (op-Answers o t l s v (omega (arith, w)))
        (λ t' l' s' v' n. run_ops-Answers os t' l' s' v' (omega (arith, w, n)))

  -- A valid entry with a key that no entry of the collection has, where those are valid and have keys and
  -- are fewer than 2 ^ 62: it is added, is then found by its key, and is removed by it; the value then
  -- holds the entries of before.
  pub add-del :
      (x : I) (t : Tagged A I) (l : List I) (u : Usable N x)
      → Keeps J N L t.root l
      → AllUsable N l
      → length l < 2 ^ 62
      → has_key N u.key l ≡ false
      → (t' : Tagged A I) × (run_ops J N (op_add x ∷ (op_find u.key ∷ (op_del u.key ∷ []))) t
          ≡ some (true ∷ (true ∷ (true ∷ [])), t'))
        × Keeps J N L t'.root l
  add-del x t l u s v w new =
      let steps = op_add x ∷ (op_find u.key ∷ (op_del u.key ∷ [])) in
      let r =
        subst (λ q. Answers q (run_ops J N steps t)) (add_del_steps N R x u l new)
          (run_ops-Answers steps t l s v (omega (arith, w))) in
      (r.after, r.result, r.kept)
