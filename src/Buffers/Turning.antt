-- ===== src/Buffers/Turning.antt =====
-- src/ioveccontainer.cpp: what update does to the buffers of a container.
use sstoraged.Common.{
  ℕ, zero, suc, ◌+◌, ◌-◌, ◌≤◌, ◌≡◌, refl, ◌∙◌, ap, true, List, [], ◌∷◌, ◌++◌, length, head?,
  get_elem?, get_elem?-length, drop, All, arith, ◌==◌, if◌then◌else◌, Option, some, none, if_cases,
  length-append,
}
use sstoraged.Buffers.{
  CommonBuf, new_common_buf, IovecContainer, rotate, drop_ended, rotate_full, turn, refresh, update,
  Slot, first_in, at_end, get_capacity,
}
use sstoraged.Buffers.Space.{FrontOpen, Packed, Blank, Unread, unread}

-- The buffers that are read to their end.
abbrev pub ended : List CommonBuf → ℕ
ended [] = 0
ended (b ∷ l) = (if at_end b then 1 else 0) + ended l

ended-length : (l : List CommonBuf) → ended l ≤ length l
ended-length [] = omega arith
ended-length (b ∷ l) = ground (arith, ended-length l)

-- There are `count` buffers beside those of `overflow`.
abbrev pub Ready : IovecContainer → Type 0
Ready c = Packed c.cbufs × ((length c.cbufs ≡ c.count + c.overflow) × (2 ≤ c.count))

-- A new buffer at the back.
All-new :
    (P : CommonBuf → Type 0) (l : List CommonBuf) (n : ℕ)
    → P (new_common_buf n)
    → All P l
    → All P (l ++ new_common_buf n ∷ [])
All-new P [] n h a = (h, tt)
All-new P (b ∷ l) n h (a, k) = (a, All-new P l n h k)

Packed-new : (l : List CommonBuf) (n : ℕ) → Packed l → Packed (l ++ new_common_buf n ∷ [])
Packed-new [] n p = ((omega arith, (omega arith, refl)), ((λ h. tt), ((λ h. tt), tt)))
Packed-new (b ∷ l) n (s, (h, (k, p))) = (
  s,
  ((λ z. All-new Blank l n refl (h z)), ((λ z. All-new Unread l n refl (k z)), Packed-new l n p)),
)

unread-new : (l : List CommonBuf) (n : ℕ) → unread (l ++ new_common_buf n ∷ []) ≡ unread l
unread-new [] n = refl
unread-new (b ∷ l) n = ap (λ u. (b.tail - b.offset) + u) (unread-new l n)

ended-new : (l : List CommonBuf) (n : ℕ) → ended (l ++ new_common_buf n ∷ []) ≡ ended l
ended-new [] n = refl
ended-new (b ∷ l) n = ap (λ u. (if at_end b then 1 else 0) + u) (ended-new l n)

head?-new :
    (l : List CommonBuf) (n : ℕ) → FrontOpen l → head? (l ++ new_common_buf n ∷ []) ≡ head? l
head?-new [] n h = absurd h
head?-new (b ∷ l) n h = refl

FrontOpen-new : (l : List CommonBuf) (n : ℕ) → FrontOpen l → FrontOpen (l ++ new_common_buf n ∷ [])
FrontOpen-new [] n h = absurd h
FrontOpen-new (b ∷ l) n h = h

-- What the loops of `update` keep.
abbrev pub Kept : IovecContainer → IovecContainer → Type 0
Kept c d =
    Ready d
    × ((unread d.cbufs ≡ unread c.cbufs)
        × (FrontOpen d.cbufs × (FrontOpen c.cbufs → head? d.cbufs ≡ head? c.cbufs)))

abbrev grown : ℕ → IovecContainer → IovecContainer
unfolding rotate
grown index c = record (rotate index c) { overflow = suc c.overflow }

grown-Kept : (index : ℕ) (c : IovecContainer) → Ready c → FrontOpen c.cbufs → Kept c (grown index c)
unfolding rotate
grown-Kept index c (p, (e, le)) o = (
  (
    Packed-new c.cbufs c.fresh p,
    (omega (arith, e, length-append c.cbufs (new_common_buf c.fresh ∷ [])), le),
  ),
  (unread-new c.cbufs c.fresh, (FrontOpen-new c.cbufs c.fresh o, head?-new c.cbufs c.fresh)),
)

Kept-trans : (c d e : IovecContainer) → Kept c d → (FrontOpen d.cbufs → Kept d e) → Kept c e
Kept-trans c d e (r, (u, (o, h))) k =
    let (r', (u', (o', h'))) = k o in (r', (u' ∙ u, (o', λ f. h' o ∙ h f)))

rotate_full-Kept :
    (l : List CommonBuf) (index : ℕ) (c : IovecContainer)
    → Ready c
    → FrontOpen c.cbufs
    → Kept c (rotate_full l index c)
unfolding rotate_full rotate
rotate_full-Kept [] index c r o = (r, (refl, (o, λ h. refl)))
rotate_full-Kept (b ∷ l) index c r o =
    let g = grown-Kept index c r o in
    if_cases (Kept c) (get_capacity b == 0) _ _
      (λ e.
        Kept-trans c (grown index c) (rotate_full l (suc index) (grown index c)) g
          (rotate_full-Kept l (suc index) (grown index c) g.0))
      (λ e. (r, (refl, (o, λ h. refl))))

-- A pop of a buffer at its end.
popped :
    (b : CommonBuf) (l : List CommonBuf)
    → Packed (b ∷ l)
    → at_end b ≡ true
    → (unread l ≡ unread (b ∷ l)) × (suc (ended l) ≡ ended (b ∷ l))
popped b l (s, k) e = ground arith

after_pop :
    (b : CommonBuf) (l : List CommonBuf)
    → at_end b ≡ true
    → (m : List CommonBuf) (d : IovecContainer) → unread m ≡ unread (b ∷ l)
    → Ready d
      × ((unread d.cbufs ≡ unread m)
          × (FrontOpen d.cbufs × (FrontOpen m → head? d.cbufs ≡ head? m)))
    → Ready d
      × ((unread d.cbufs ≡ unread (b ∷ l))
          × (FrontOpen d.cbufs × (FrontOpen (b ∷ l) → head? d.cbufs ≡ head? (b ∷ l))))
after_pop b l e m d u (r, (v, (o, h))) = (r, (v ∙ u, (o, λ f. absurd (ground (arith, e, f)))))

drop_ended-Kept :
    (fuel index : ℕ) (vec : List Slot) (count : ℕ) (cbufs : List CommonBuf)
    (remain overflow fresh : ℕ)
    → (let c : IovecContainer = record {
      vec = vec;
      count = count;
      cbufs = cbufs;
      remain = remain;
      overflow = overflow;
      fresh = fresh;
    } in
        Ready c → ended cbufs ≤ fuel → Kept c (drop_ended fuel index c))
unfolding drop_ended rotate
drop_ended-Kept zero index vec count [] remain overflow fresh r le = absurd (omega (arith, r))
drop_ended-Kept zero index vec count (b ∷ l) remain overflow fresh r le =
    (r, (refl, (ground (arith, le), λ h. refl)))
drop_ended-Kept (suc fuel) index vec count [] remain overflow fresh r le = absurd (omega (arith, r))
drop_ended-Kept (suc fuel) index vec count (b ∷ l) remain zero fresh r le =
    if_cases
      (Kept (record {
        vec = vec;
        count = count;
        cbufs = b ∷ l;
        remain = remain;
        overflow = 0;
        fresh = fresh;
      }))
      (at_end b) _ _
      (λ e.
        let (u, n) = popped b l r.0 e in
        let next : IovecContainer = rotate index (record {
          vec = vec;
          count = count;
          cbufs = l;
          remain = remain;
          overflow = 0;
          fresh = fresh;
        }) in
        after_pop b l e next.cbufs (drop_ended fuel (suc index) next) (unread-new l fresh ∙ u) (
          drop_ended-Kept fuel (suc index) next.vec count next.cbufs next.remain 0 (suc fresh)
            (
              Packed-new l fresh r.0.1.1.1,
              (omega (arith, r.1.0, length-append l (new_common_buf fresh ∷ [])), r.1.1),
            )
            (omega (arith, n, le, ended-new l fresh))))
      (λ e. (r, (refl, (e, λ h. refl))))
drop_ended-Kept (suc fuel) index vec count (b ∷ l) remain (suc o) fresh r le =
    if_cases
      (Kept (record {
        vec = vec;
        count = count;
        cbufs = b ∷ l;
        remain = remain;
        overflow = suc o;
        fresh = fresh;
      }))
      (at_end b) _ _
      (λ e.
        let (u, n) = popped b l r.0 e in
        let next : IovecContainer = record {
          vec = vec;
          count = count;
          cbufs = l;
          remain = remain;
          overflow = o;
          fresh = fresh;
        } in
        after_pop b l e l (drop_ended fuel (suc index) next) u (
          drop_ended-Kept fuel (suc index) vec count l remain o fresh
            (r.0.1.1.1, (omega (arith, r.1.0), r.1.1)) (omega (arith, n, le))))
      (λ e. (r, (refl, (e, λ h. refl))))

turn-Kept :
    (l : List CommonBuf) (c : IovecContainer) → Ready c → FrontOpen c.cbufs → Kept c (turn l c)
turn-Kept [] c r o = (r, (refl, (o, λ h. refl)))
turn-Kept (b ∷ l) c r o =
    if_cases (Kept c) (first_in b c.vec) _ _ (λ e. rotate_full-Kept (b ∷ l) 0 c r o)
      (λ e. (r, (refl, (o, λ h. refl))))

-- `update` reads no buffer past the last one and leaves what is not read; the front buffer is then
-- one that is not at its end, the same one if it was not before.
abbrev pub Updated : IovecContainer → Option IovecContainer → Type 0
Updated c none = ⊥
Updated c (some d) = Kept c d

refresh-Updated :
    (c d : IovecContainer) (o : Option CommonBuf) (b : CommonBuf)
    → o ≡ some b
    → Kept c d
    → Updated c (refresh o d)
refresh-Updated c d none b e k = absurd (ground (arith, e))
refresh-Updated c d (some a) b e k = k

pub update-Updated : (c : IovecContainer) → Ready c → Updated c (update c)
unfolding update
update-Updated c r =
    let dropped = drop_ended (length c.cbufs) 0 c in
    let k =
      drop_ended-Kept (length c.cbufs) 0 c.vec c.count c.cbufs c.remain c.overflow c.fresh r
        (ended-length c.cbufs) in
    let turned = turn (drop dropped.overflow dropped.cbufs) dropped in
    let m =
      Kept-trans c dropped turned k (turn-Kept (drop dropped.overflow dropped.cbufs) dropped k.0) in
    let (b, e) = get_elem?-length turned.cbufs turned.overflow (omega (arith, m.0)) in
    refresh-Updated c turned (get_elem? turned.cbufs turned.overflow) b e m
