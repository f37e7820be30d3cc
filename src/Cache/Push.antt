-- ===== src/Cache/Push.antt =====
-- What a read is answered from after a write has been pushed.
use sstoraged.Common.{
  ℕ, ◌+◌, ◌^◌, ◌≤◌, ◌<◌, ◌≡◌, ◌≢◌, ◌↔◌, refl, List, [], ◌∷◌, All, Any, ◌⊎◌, inl, inr, arith,
  add64_small, select, Bool-cases, true,
}
use sstoraged.Cache.{WriteSegment, WriteCache, LbaIndex, merge_all, push_back, push, search}
use sstoraged.Cache.Search.{Ordered, Fits, overlaps, search-select}
use sstoraged.Cache.Serve.{Source, source, Answers, Serves}
use sstoraged.Cache.Merge.{Well, Overlap}
use sstoraged.Cache.Store.{All-map, insert-All, insert-Any, Any-insert, insert-Distinct}
use sstoraged.Cache.Pending.{IsValid, Ready, Pending, Goal, merge_all-Goal}

weaken-select :
    (P : WriteSegment → Type 0) (lba length : ℕ) (s : WriteSegment) (l : List WriteSegment)
    → Any P (select (overlaps lba length) l)
    → Any P (select (overlaps lba length) (s ∷ l))
weaken-select P lba length s l h = elim (Bool-cases (overlaps lba length s)) [
  | inl e ↦ rw (e, select) (inr h)
  | inr e ↦ rw (e, select) h
]

-- The overlapping segments of an index are among those that its search selects.
selected :
    (lba length : ℕ) (l : List WriteSegment)
    → All
        (λ s.
          Overlap lba (lba + length) s → Any (λ h. h.ptr ≡ s.ptr) (select (overlaps lba length) l))
        l
selected lba length [] = tt
selected lba length (s ∷ l) = (
  λ o. let e : overlaps lba length s ≡ true = ground arith in rw (e, select) (inl refl),
  All-map _ _ l (λ t f o. weaken-select (λ h. h.ptr ≡ t.ptr) lba length s l (f o))
      (selected lba length l),
)

-- A write that comes in: a fresh segment over a range that is not empty and does not wrap.
pub record IsWrite (c : WriteCache) (ws : WriteSegment) : Type 0 where
  pub whole : (ws.rlba ≡ ws.lba) × (ws.rlength ≡ ws.transfer_length)
  pub some_blocks : 0 < ws.transfer_length
  pub no_wrap : ws.lba + ws.transfer_length < 2 ^ 64
  pub handed_out : ws.ptr < c.next_ptr
  pub absent : All (λ s. s.ptr ≢ ws.ptr) c.index

abbrev pub Inside : WriteSegment → ℕ → Type 0
Inside ws a = (ws.lba ≤ a) × (a < ws.lba + ws.transfer_length)

inside-or-out : (x y a : ℕ) → ((x ≤ a) × (a < y)) ⊎ ((a < x) ⊎ (y ≤ a))
inside-or-out x y a = grind arith

module _ (ix : LbaIndex) (c : WriteCache) (ws : WriteSegment) where
  -- No hit that the write splits has lost its first block or begins behind a header.
  abbrev pub AllReady : Type 0
  AllReady = All (Ready ws.lba (ws.lba + ws.transfer_length)) c.index

  module _ (v : IsValid c) (o : Ordered c.index) (w : IsWrite c ws) (r : AllReady) where
    range : ws.lba < ws.lba + ws.transfer_length
    range = omega (arith, w.some_blocks)

    fitting : (l : List WriteSegment) → All Well l → All Fits l
    fitting l = All-map Well Fits l (λ s x. x.fits)

    merged-Goal : Goal ix ws.ptr ws.lba (ws.lba + ws.transfer_length) range [] c (
        merge_all ix ws.lba
          (ws.lba + ws.transfer_length)
          (search ix c.index ws.lba ws.transfer_length)
          c)
    merged-Goal =
        rw (search-select ix c.index ws.lba ws.transfer_length w.no_wrap o (fitting c.index v.well))
          (merge_all-Goal ix ws.ptr ws.lba (ws.lba + ws.transfer_length) range
            (select (overlaps ws.lba ws.transfer_length) c.index) c
            (record {
              older = w.handed_out;
              away = w.absent;
              holds = v;
              ready = r;
              left = selected ws.lba ws.transfer_length c.index;
            }))

    -- The container after the loop, before the new segment is added.
    abbrev cleared : WriteCache
    cleared =
        merge_all ix ws.lba (ws.lba + ws.transfer_length)
          (search ix c.index ws.lba ws.transfer_length) c

    push-cleared : push ix ws c ≡ push_back ix ws cleared
    unfolding push
    push-cleared = rw (add64_small ws.lba ws.transfer_length w.no_wrap)

    nothing-Inside :
        (l : List WriteSegment) (a : ℕ) (b : Source)
        → All
            (λ s.
              Overlap ws.lba (ws.lba + ws.transfer_length) s
              → Any {A = WriteSegment} (λ h. h.ptr ≡ s.ptr) [])
            l
        → Inside ws a
        → ¬ Serves l a b
    nothing-Inside [] a b h i x = x
    nothing-Inside (s ∷ l) a b h i (inl x) = h.0 (omega (arith, x.0))
    nothing-Inside (s ∷ l) a b h i (inr x) = nothing-Inside l a b h.1 i x

    -- After a push over an index whose keys are in order and whose live ranges are disjoint, where
    -- no segment that is split has been shrunk from the front or begins behind a header: an LBA
    -- inside the written range is answered by the new segment and by nothing else, and an LBA
    -- outside it is answered as before.
    pub push-Serves :
        (a : ℕ) (b : Source)
        → Serves (push ix ws c).index a b ↔ (
            (Inside ws a × (source ws a ≡ b))
            ⊎ (((a < ws.lba) ⊎ (ws.lba + ws.transfer_length ≤ a)) × Serves c.index a b))
    push-Serves a b = rw push-cleared (to, from)
      where
        to :
            Serves (ix.insert ws cleared.index) a b
            → (Inside ws a × (source ws a ≡ b))
              ⊎ (((a < ws.lba) ⊎ (ws.lba + ws.transfer_length ≤ a)) × Serves c.index a b)
        to x = elim (Any-insert (Answers a b) ix ws cleared.index x) [
          | inl y ↦ inl (omega (arith, y.0, w.whole), y.1)
          | inr y ↦ elim (inside-or-out ws.lba (ws.lba + ws.transfer_length) a) [
            | inl i ↦ absurd (nothing-Inside cleared.index a b merged-Goal.0.left i y)
            | inr out ↦ inr (out, (merged-Goal.1 a b out).1 y)
          ]
        ]

        from :
            (Inside ws a × (source ws a ≡ b))
              ⊎ (((a < ws.lba) ⊎ (ws.lba + ws.transfer_length ≤ a)) × Serves c.index a b)
            → Serves (ix.insert ws cleared.index) a b
        from (inl x) =
            insert-Any (Answers a b) ix ws cleared.index (inl (omega (arith, x.0, w.whole), x.1))
        from (inr x) =
            insert-Any (Answers a b) ix ws cleared.index (inr ((merged-Goal.1 a b x.0).0 x.1))

    -- A push over an index whose keys are in order and whose live ranges are disjoint, where no segment
    -- that is split has been shrunk from the front or begins behind a header, leaves one segment for
    -- each address, and ranges that do not wrap, if it was so before.
    pub push-IsValid : IsValid (push ix ws c)
    push-IsValid = rw push-cleared (record {
      distinct = insert-Distinct ix ws cleared.index p.away p.holds.distinct;
      below = insert-All (λ s. s.ptr < cleared.next_ptr) ix ws cleared.index p.older p.holds.below;
      well = insert-All Well ix ws cleared.index new_well p.holds.well;
    })
      where
        p : Pending ws.lba (ws.lba + ws.transfer_length) ws.ptr [] cleared.next_ptr cleared.index
        p = merged-Goal.0

        new_well : Well ws
        new_well = omega (arith, w.whole, w.no_wrap)
