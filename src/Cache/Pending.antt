-- ===== src/Cache/Pending.antt =====
-- What the rounds of push's loop keep, with the hits that are still to come.
use sstoraged.Common.{
  ℕ, ◌+◌, ◌^◌, ◌≤◌, ◌<◌, ◌≡◌, ◌≢◌, ◌↔◌, sym, ◌∙◌, Option, none, some, List, [], ◌∷◌, All, Any, ◌⊎◌,
  inl, inr, arith, Option-cases,
}
use sstoraged.Cache.{
  WriteSegment, WriteCache, LbaIndex, find, replace, cut, apply_cut, merge, merge_all,
}
use sstoraged.Cache.Serve.{Source, Answers, Serves}
use sstoraged.Cache.Merge.{Well, Overlap, SplitSafe, Beside, Facts, cut-Facts}
use sstoraged.Cache.Store.{
  Distinct, find-none, find-ptr, find-All, find-Any, replace-Any_kept, All-map, insert-All,
  insert-Any, Any-insert, replace-All, Any-replace, replace-Any, replace-Any_new, find-insert,
  insert-Distinct, replace-below, replace-ptrs, replace-Distinct,
}

-- What the container keeps: one segment for an address, addresses below the next one, ranges that
-- do not wrap.
pub record Holds (next : ℕ) (l : List WriteSegment) : Type 0 where
  pub distinct : Distinct l
  pub below : All (λ s. s.ptr < next) l
  pub well : All Well l

abbrev pub IsValid : WriteCache → Type 0
IsValid c = Holds c.next_ptr c.index

module _ (whead wtail : ℕ) where
  -- A segment that can be cut.
  pub record Ready (s : WriteSegment) : Type 0 where
    pub safe : SplitSafe whead wtail s
    pub small : s.lba + wtail < 2 ^ 64

  -- The segments that still reach into the range are among the hits to come.
  -- The segment at `new` is the one being pushed.
  pub record Pending (new : ℕ) (hits : List WriteSegment) (next : ℕ) (l : List WriteSegment)
      : Type 0 where
    pub older : new < next
    pub away : All (λ s. s.ptr ≢ new) l
    pub holds : Holds next l
    pub ready : All Ready l
    pub left : All (λ s. Overlap whead wtail s → Any (λ h. h.ptr ≡ s.ptr) hits) l

  -- Outside the range the two indexes answer alike.
  abbrev pub SameOutside : List WriteSegment → List WriteSegment → Type 0
  SameOutside l m = (a : ℕ) (b : Source) → (a < whead) ⊎ (wtail ≤ a) → Serves l a b ↔ Serves m a b

  Beside-Ready :
      (lba : ℕ) (s : WriteSegment)
      → lba + wtail < 2 ^ 64
      → Beside whead wtail lba s
      → whead < wtail
      → Ready s
  Beside-Ready lba s small b range = record {
    safe = λ h k. absurd (b.clear (omega (arith, b.fine.fits)));
    small = omega (arith, b.same_lba);
  }

  insert-Pending :
      (ix : LbaIndex) (new : ℕ) (hits : List WriteSegment) (next : ℕ) (l : List WriteSegment)
      (cs : WriteSegment)
      → Pending new hits next l
      → cs.ptr ≡ next
      → Well cs
      → Ready cs
      → ¬ Overlap whead wtail cs
      → Pending new hits (next + 1) (ix.insert cs l)
  insert-Pending ix new hits next l cs p e w r o = record {
    older = omega (arith, p.older);
    away = insert-All (λ t. t.ptr ≢ new) ix cs l (omega (arith, p.older)) p.away;
    holds = record {
      distinct =
          insert-Distinct ix cs l
            (All-map (λ t. t.ptr < next) (λ t. t.ptr ≢ cs.ptr) l (λ t h. omega arith) p.holds.below)
            p.holds.distinct;
      below =
          insert-All (λ t. t.ptr < next + 1) ix cs l (omega arith)
            (All-map (λ t. t.ptr < next) (λ t. t.ptr < next + 1) l (λ t h. omega arith)
              p.holds.below);
      well = insert-All Well ix cs l w p.holds.well;
    };
    ready = insert-All Ready ix cs l r p.ready;
    left = insert-All _ ix cs l (λ x. absurd (o x)) p.left;
  }

  replace-Pending :
      (new : ℕ) (hits : List WriteSegment) (next : ℕ) (l : List WriteSegment) (h s' : WriteSegment)
      → Pending new (h ∷ hits) next l
      → s'.ptr ≡ h.ptr
      → Well s'
      → Ready s'
      → ¬ Overlap whead wtail s'
      → Pending new hits next (replace h.ptr s' l)
  replace-Pending new hits next l h s' p e w r o = record {
    older = p.older;
    away = replace-ptrs (λ q. q ≢ new) h.ptr s' l e p.away;
    holds = record {
      distinct = replace-Distinct h.ptr s' l e p.holds.distinct;
      below = replace-below next h.ptr s' l e p.holds.below;
      well = replace-All Well h.ptr s' l w (All-map _ _ l (λ t x _. x) p.holds.well);
    };
    ready = replace-All Ready h.ptr s' l r (All-map _ _ l (λ t x _. x) p.ready);
    left =
        replace-All _ h.ptr s' l (λ x. absurd (o x))
          (All-map _ _ l (λ t x ne y. elim (x y) [ inl z ↦ absurd (ne (sym z)) | inr z ↦ z ])
            p.left);
  }

  replace-SameOutside :
      (l : List WriteSegment) (p : ℕ) (s s' : WriteSegment)
      → Distinct l
      → find p l ≡ some s
      → ((a : ℕ) (b : Source) → Answers a b s' → Answers a b s)
      → ((a : ℕ) (b : Source) → (a < whead) ⊎ (wtail ≤ a) → Answers a b s → Answers a b s')
      → SameOutside l (replace p s' l)
  replace-SameOutside l p s s' d f back forth a b out = (to, from)
    where
      to : Serves l a b → Serves (replace p s' l) a b
      to x = elim (replace-Any (Answers a b) p s' l s d f x) [
        | inl y ↦ replace-Any_new (Answers a b) p s' l s f (forth a b out y)
        | inr y ↦ y
      ]

      from : Serves (replace p s' l) a b → Serves l a b
      from x = elim (Any-replace (Answers a b) p s' l x) [
        | inl y ↦ find-Any (Answers a b) p l s f (back a b y)
        | inr y ↦ y
      ]

  split-SameOutside :
      (ix : LbaIndex) (l : List WriteSegment) (p : ℕ) (s s' cs : WriteSegment)
      → Distinct (ix.insert cs l)
      → find p l ≡ some s
      → cs.ptr ≢ p
      → ((a : ℕ) (b : Source) → Answers a b s' → Answers a b s)
      → ((a : ℕ) (b : Source) → Answers a b cs → Answers a b s)
      → ((a : ℕ) (b : Source)
          → (a < whead) ⊎ (wtail ≤ a)
          → Answers a b s
          → Answers a b s' ⊎ Answers a b cs)
      → SameOutside l (replace p s' (ix.insert cs l))
  split-SameOutside ix l p s s' cs d f ne back copied forth a b out = (to, from)
    where
      f' : find p (ix.insert cs l) ≡ some s
      f' = find-insert ix p cs l ne ∙ f

      to : Serves l a b → Serves (replace p s' (ix.insert cs l)) a b
      to x =
          elim (replace-Any (Answers a b) p s' (ix.insert cs l) s d f'
            (insert-Any (Answers a b) ix cs l (inr x))) [
              | inl y ↦ elim (forth a b out y) [
                | inl z ↦ replace-Any_new (Answers a b) p s' (ix.insert cs l) s f' z
                | inr z ↦
                    replace-Any_kept (Answers a b) p s' (ix.insert cs l)
                      (insert-Any (λ t. (t.ptr ≢ p) × Answers a b t) ix cs l (inl (ne, z)))
              ]
              | inr y ↦ y
            ]

      from : Serves (replace p s' (ix.insert cs l)) a b → Serves l a b
      from x = elim (Any-replace (Answers a b) p s' (ix.insert cs l) x) [
        | inl y ↦ find-Any (Answers a b) p l s f (back a b y)
        | inr y ↦ elim (Any-insert (Answers a b) ix cs l y) [
          | inl z ↦ find-Any (Answers a b) p l s f (copied a b z)
          | inr z ↦ z
        ]
      ]

module _ (ix : LbaIndex) (new whead wtail : ℕ) (range : whead < wtail) where
  abbrev pub Goal : List WriteSegment → WriteCache → WriteCache → Type 0
  Goal hits c d =
      Pending whead wtail new hits d.next_ptr d.index × SameOutside whead wtail c.index d.index

  module _ (hits : List WriteSegment) (c : WriteCache) (h s : WriteSegment)
      (p : Pending whead wtail new (h ∷ hits) c.next_ptr c.index)
      (f : find h.ptr c.index ≡ some s) where
    hit_Well : Well s
    hit_Well = find-All Well h.ptr c.index s p.holds.well f

    hit_Ready : Ready whead wtail s
    hit_Ready = find-All (Ready whead wtail) h.ptr c.index s p.ready f

    facts : Facts c.next_ptr whead wtail s (cut c.next_ptr whead wtail s)
    facts = cut-Facts c.next_ptr whead wtail s range hit_Well hit_Ready.small hit_Ready.safe

    place : s.ptr ≡ h.ptr
    place = find-ptr h.ptr c.index s f

    ready : (t : WriteSegment) → Beside whead wtail s.lba t → Ready whead wtail t
    ready t b = Beside-Ready whead wtail s.lba t hit_Ready.small b range

    apply_cut-Goal :
        (d : WriteSegment × Option WriteSegment)
        → Facts c.next_ptr whead wtail s d
        → Goal hits c (apply_cut ix h.ptr d c)
    apply_cut-Goal (s', none) g = (
      replace-Pending whead wtail new hits c.next_ptr c.index h s' p (g.same_ptr ∙ place)
          g.beside.fine (ready s' g.beside) g.beside.clear,
      replace-SameOutside whead wtail c.index h.ptr s s' p.holds.distinct f g.back
          (λ a b out x. elim (g.forth a b out x) [ inl y ↦ y | inr y ↦ absurd y ]),
    )
    apply_cut-Goal (s', some cs) g =
        let (fresh, b, copied) = g.copied in
        let q =
          insert-Pending whead wtail ix new (h ∷ hits) c.next_ptr c.index cs p fresh b.fine
            (ready cs b) b.clear in
        let old : h.ptr < c.next_ptr =
          rw (← place) (find-All (λ t. t.ptr < c.next_ptr) h.ptr c.index s p.holds.below f) in
        (
          replace-Pending whead wtail new hits (c.next_ptr + 1) (ix.insert cs c.index) h s' q
              (g.same_ptr ∙ place) g.beside.fine (ready s' g.beside) g.beside.clear,
          split-SameOutside whead wtail ix c.index h.ptr s s' cs q.holds.distinct f
              (λ e. absurd (omega arith)) g.back copied g.forth,
        )

  merge-Goal :
      (hits : List WriteSegment) (c : WriteCache) (h : WriteSegment)
      → Pending whead wtail new (h ∷ hits) c.next_ptr c.index
      → Goal hits c (merge ix whead wtail h.ptr c)
  unfolding merge
  merge-Goal hits c h p = elim (Option-cases (find h.ptr c.index)) [
    | inl e ↦
        rw (e, merge)
          (
            record {
              older = p.older;
              away = p.away;
              holds = p.holds;
              ready = p.ready;
              left = absent c.index (find-none h.ptr c.index e) p.left;
            },
            λ a b _. (λ x. x, λ x. x),
          )
    | inr (s, e) ↦
        rw (e, merge)
          (apply_cut-Goal hits c h s p e (cut c.next_ptr whead wtail s) (facts hits c h s p e))
  ]
    where
      absent :
          (l : List WriteSegment)
          → All (λ s. s.ptr ≢ h.ptr) l
          → All (λ s. Overlap whead wtail s → Any (λ t. t.ptr ≡ s.ptr) (h ∷ hits)) l
          → All (λ s. Overlap whead wtail s → Any (λ t. t.ptr ≡ s.ptr) hits) l
      absent [] n a = tt
      absent (s ∷ l) n a =
          (λ x. elim (a.0 x) [ inl y ↦ absurd (n.0 (sym y)) | inr y ↦ y ], absent l n.1 a.1)

  pub merge_all-Goal :
      (hits : List WriteSegment) (c : WriteCache)
      → Pending whead wtail new hits c.next_ptr c.index
      → Goal [] c (merge_all ix whead wtail hits c)
  unfolding merge_all
  merge_all-Goal [] c p = (p, λ a b _. (λ x. x, λ x. x))
  merge_all-Goal (h ∷ hits) c p =
      let (q, same) = merge-Goal hits c h p in
      let (r, rest) = merge_all-Goal hits (merge ix whead wtail h.ptr c) q in
      (
        r,
        λ a b out. (
          λ x. (rest a b out).0 ((same a b out).0 x),
          λ x. (same a b out).1 ((rest a b out).1 x),
        ),
      )
