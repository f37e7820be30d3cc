-- ===== src/Read/Tiling.antt =====
-- sendCache delivers the blocks of its range, each from where the cache index says.
use sstoraged.Common.{
  ℕ, ◌+◌, ◌-◌, ◌%◌, ◌^◌, ◌≤◌, ◌<◌, ◌≡◌, min, refl, sym, ap, ◌∙◌, true, false, ltb, leb, List, [],
  ◌∷◌, ◌++◌, All, arith, Bool-cases, ◌⊎◌, inl, inr, ltb→lt, leb→le, add64, sub64, add32, sub32,
}
use mathlib.Core.List.{append-nil}
use sstoraged.Cache.{WriteSegment}
use sstoraged.Session.{task_sendfile, task_send_cache}
use sstoraged.Read.{send_cache, hit_length}
use sstoraged.Read.Hits.{
  disk_run, cache_run, blocks, view, view-add, view-beyond, view-hit, view-past,
}

-- A live segment whose length is that of a transfer, and whose range does not wrap.
pub record Live (s : WriteSegment) : Type 0 where
  pub some_blocks : 0 < s.rlength
  pub short : s.rlength < 2 ^ 32
  pub fits : s.rlba + s.rlength < 2 ^ 64

-- Live segments in order, from `e` on.
abbrev pub Follow : ℕ → List WriteSegment → Type 0
Follow e [] = Unit
Follow e (s ∷ l) = (e ≤ s.rlba) × Live s × Follow (s.rlba + s.rlength) l

-- The first of them may begin before `a`, and ends past it.
abbrev pub Ahead : ℕ → List WriteSegment → Type 0
Ahead a [] = Unit
Ahead a (s ∷ l) = (a < s.rlba + s.rlength) × Live s × Follow (s.rlba + s.rlength) l

pub Follow-Ahead : (a e : ℕ) (l : List WriteSegment) → a ≤ e → Follow e l → Ahead a l
Follow-Ahead a e [] k h = tt
Follow-Ahead a e (s ∷ l) k h = (omega (arith, h.0, h.1.some_blocks), h.1, h.2)

Follow-All : (a e : ℕ) (l : List WriteSegment) → a ≤ e → Follow e l → All (λ t. a ≤ t.rlba) l
Follow-All a e [] k h = tt
Follow-All a e (s ∷ l) k h =
    (omega (arith, h.0), Follow-All a (s.rlba + s.rlength) l (omega (arith, h.0)) h.2)

send_none : (hits : List WriteSegment) (rlba : ℕ) → send_cache hits rlba 0 ≡ ([], rlba)
unfolding send_cache
send_none [] rlba = refl
send_none (s ∷ hits) rlba = refl

module _ (s : WriteSegment) (hits : List WriteSegment) (rlba length : ℕ) (live : Live s)
    (some_blocks : 0 < length) (w : rlba + length < 2 ^ 64) (v : length < 2 ^ 32) where
  -- One round of the loop, without the wrap-around that these bounds rule out.
  abbrev hit : ℕ
  hit = min length (s.rlba + s.rlength - rlba)

  hit_length-min :
      s.rlba ≤ rlba
      → rlba < s.rlba + s.rlength
      → hit_length s.rlba (s.rlength % 2 ^ 32) rlba length ≡ hit
  unfolding hit_length
  hit_length-min a b = ground (arith, live.short, live.fits)

  send_cache_first :
      s.rlba ≤ rlba
      → rlba < s.rlba + s.rlength
      → send_cache (s ∷ hits) rlba length ≡ (
        task_send_cache s rlba hit ∷ (send_cache hits (rlba + hit) (length - hit)).0,
        (send_cache hits (rlba + hit) (length - hit)).1,
      )
  unfolding send_cache
  send_cache_first a b =
      let e : ltb 0 length ≡ true = ground arith in
      let f : leb s.rlba rlba ≡ true = ground arith in
      let g : add64 rlba hit ≡ rlba + hit = omega arith in
      let k : sub32 length hit ≡ length - hit = omega arith in rw (e, f, hit_length-min a b, g, k)

  module _ (before : rlba < s.rlba) (near : s.rlba ≤ rlba + length) where
    send_cache_last :
        rlba + length ≤ s.rlba + s.rlength
        → (send_cache (s ∷ hits) rlba length).0
          ≡ task_sendfile rlba (s.rlba - rlba)
            ∷ task_send_cache s s.rlba (length - (s.rlba - rlba))
            ∷ []
    unfolding send_cache
    send_cache_last b =
        let e : ltb 0 length ≡ true = ground arith in
        let f : leb s.rlba rlba ≡ false = ground arith in
        let g : add64 rlba length ≡ rlba + length = omega arith in
        let k : s.rlength % 2 ^ 32 ≡ s.rlength = omega (arith, live.short) in
        let m : add64 s.rlba s.rlength ≡ s.rlba + s.rlength = omega (arith, live.fits) in
        let n : leb (rlba + length) (s.rlba + s.rlength) ≡ true = ground arith in
        let o : sub64 s.rlba rlba % 2 ^ 32 ≡ s.rlba - rlba = omega (arith, live.fits) in
        let p : sub32 length (s.rlba - rlba) ≡ length - (s.rlba - rlba) = omega arith in
        rw (e, f, k, g, m, n, o, p)

    send_cache_middle :
        s.rlba + s.rlength < rlba + length
        → (send_cache (s ∷ hits) rlba length).0
          ≡ task_sendfile rlba (s.rlba - rlba)
            ∷ task_send_cache s s.rlba s.rlength
            ∷ (send_cache hits (s.rlba + s.rlength) (rlba + length - (s.rlba + s.rlength))).0
    unfolding send_cache
    send_cache_middle b =
        let e : ltb 0 length ≡ true = ground arith in
        let f : leb s.rlba rlba ≡ false = ground arith in
        let g : add64 rlba length ≡ rlba + length = omega arith in
        let k : s.rlength % 2 ^ 32 ≡ s.rlength = omega (arith, live.short) in
        let m : add64 s.rlba s.rlength ≡ s.rlba + s.rlength = omega (arith, live.fits) in
        let n : leb (rlba + length) (s.rlba + s.rlength) ≡ false = ground arith in
        let o : sub64 s.rlba rlba % 2 ^ 32 ≡ s.rlba - rlba = omega (arith, live.fits) in
        let p : sub32 length (add32 (s.rlba - rlba) s.rlength)
            ≡ rlba + length - (s.rlba + s.rlength) =
          omega (arith, live.short) in
        rw (e, f, k, g, m, n, o, p)

-- The view of a range that begins in a segment, past the part that the segment covers.
view_rest :
    (s : WriteSegment) (l : List WriteSegment) (a n : ℕ)
    → (n ≡ 0) ⊎ (s.rlba + s.rlength ≤ a)
    → view (s ∷ l) a n ≡ view l a n
view_rest s l a n (inl e) = rw e
view_rest s l a n (inr h) = view-past s l a n h

view_split :
    (l : List WriteSegment) (a m n : ℕ) → m ≤ n → view l a n ≡ view l a m ++ view l (a + m) (n - m)
view_split l a m n h =
    let e : m + (n - m) ≡ n = omega arith in ap (λ k. view l a k) (sym e) ∙ view-add l a m (n - m)

near : (a b : ℕ) (l : List WriteSegment) → a ≤ b → All (λ t. t.rlba ≤ a) l → All (λ t. t.rlba ≤ b) l
near a b [] i j = tt
near a b (t ∷ l) i j = (omega (arith, j.0), near a b l i j.1)

abbrev Delivers : List WriteSegment → Type 0
Delivers hits =
    (rlba length : ℕ)
    → rlba + length < 2 ^ 64
    → length < 2 ^ 32
    → Ahead rlba hits
    → All (λ t. t.rlba ≤ rlba + length) hits
    → blocks (send_cache hits rlba length).0 ≡ view hits rlba length

module _ (s : WriteSegment) (hits : List WriteSegment) (ih : Delivers hits) (rlba length : ℕ)
    (pos : 0 < length) (w : rlba + length < 2 ^ 64) (v : length < 2 ^ 32)
    (h : Ahead rlba (s ∷ hits)) (k : All (λ t. t.rlba ≤ rlba + length) (s ∷ hits)) where
  deliver_first :
      s.rlba ≤ rlba → blocks (send_cache (s ∷ hits) rlba length).0 ≡ view (s ∷ hits) rlba length
  deliver_first f =
      let n = min length (s.rlba + s.rlength - rlba) in
      let rest =
        ih (rlba + n) (length - n) (omega arith) (omega arith)
          (Follow-Ahead (rlba + n) (s.rlba + s.rlength) hits (omega arith) h.2)
          (near (rlba + length) (rlba + n + (length - n)) hits (omega arith) k.1) in
      rw (
        send_cache_first s hits rlba length h.1 pos w v f h.0,
        view_split (s ∷ hits) rlba n length (omega arith),
        view-hit s hits rlba n f (omega (arith, h.0)),
        view_rest s hits (rlba + n) (length - n) (ground arith),
        rest,
      )

  deliver_last :
      rlba < s.rlba
      → rlba + length ≤ s.rlba + s.rlength
      → blocks (send_cache (s ∷ hits) rlba length).0 ≡ view (s ∷ hits) rlba length
  deliver_last f g =
      let n = s.rlba - rlba in
      let e : rlba + n ≡ s.rlba = omega arith in
      rw (
        send_cache_last s hits rlba length h.1 pos w v f k.0 g,
        view_split (s ∷ hits) rlba n length (omega (arith, k.0)),
        view-beyond (s ∷ hits) rlba n
            (omega arith, Follow-All (rlba + n) (s.rlba + s.rlength) hits (omega arith) h.2),
        e,
        view-hit s hits s.rlba (length - n) (omega arith) (omega (arith, k.0)),
        append-nil (cache_run s s.rlba (length - n)),
      )

  deliver_middle :
      rlba < s.rlba
      → s.rlba + s.rlength < rlba + length
      → blocks (send_cache (s ∷ hits) rlba length).0 ≡ view (s ∷ hits) rlba length
  deliver_middle f g =
      let n = s.rlba - rlba in
      let left = rlba + length - (s.rlba + s.rlength) in
      let e : rlba + n ≡ s.rlba = omega arith in
      let e' : length - n - s.rlength ≡ left = omega arith in
      let rest =
        ih (s.rlba + s.rlength) left (omega arith) (omega arith)
          (Follow-Ahead (s.rlba + s.rlength) (s.rlba + s.rlength) hits (omega arith) h.2)
          (near (rlba + length) (s.rlba + s.rlength + left) hits (omega arith) k.1) in
      rw (
        send_cache_middle s hits rlba length h.1 pos w v f k.0 g,
        view_split (s ∷ hits) rlba n length (omega (arith, k.0)),
        view-beyond (s ∷ hits) rlba n
            (omega arith, Follow-All (rlba + n) (s.rlba + s.rlength) hits (omega arith) h.2),
        e,
        view_split (s ∷ hits) s.rlba s.rlength (length - n) (omega (arith, k.0)),
        view-hit s hits s.rlba s.rlength (omega arith) (omega arith),
        e',
        view-past s hits (s.rlba + s.rlength) left (omega arith),
        rest,
      )

-- With the segments in order and disjoint, the first one not ended before the range and none
-- beginning past its end, the tasks that sendCache pushes deliver exactly the blocks of the range,
-- in order, each from the segment that covers it or else from disk.
pub send_cache-view :
    (hits : List WriteSegment) (rlba length : ℕ)
    → rlba + length < 2 ^ 64
    → length < 2 ^ 32
    → Ahead rlba hits
    → All (λ t. t.rlba ≤ rlba + length) hits
    → blocks (send_cache hits rlba length).0 ≡ view hits rlba length
unfolding send_cache
send_cache-view [] rlba length w v h k = elim (Bool-cases (ltb 0 length)) [
  | inl e ↦ rw (e, view-beyond [] rlba length tt, append-nil (disk_run rlba length))
  | inr e ↦ let z : length ≡ 0 = ground arith in rw z
]
send_cache-view (s ∷ hits) rlba length w v h k = elim (Bool-cases (ltb 0 length)) [
  | inr e ↦ let z : length ≡ 0 = ground arith in rw z
  | inl e ↦
      let pos = ltb→lt 0 length e in
      elim (Bool-cases (leb s.rlba rlba)) [
        | inl f ↦
            deliver_first s hits (send_cache-view hits) rlba length pos w v h k
              (leb→le s.rlba rlba f)
        | inr f ↦ elim (Bool-cases (leb (rlba + length) (s.rlba + s.rlength))) [
          | inl g ↦
              deliver_last s hits (send_cache-view hits) rlba length pos w v h k (ground arith)
                (leb→le _ _ g)
          | inr g ↦
              deliver_middle s hits (send_cache-view hits) rlba length pos w v h k (ground arith)
                (ground arith)
        ]
      ]
]
