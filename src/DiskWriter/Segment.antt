-- ===== src/DiskWriter/Segment.antt =====
-- src/diskwriter.cpp: where the bytes of a segment go, over its buffers and the handles.
use sstoraged.Common.{
  ℕ, zero, suc, ◌+◌, ◌-◌, ◌^◌, ◌≤◌, ◌<◌, ◌≡◌, refl, sym, ap, ◌∙◌, subst, min, Bool, true, false,
  ltb, ◌==◌, if◌then◌else◌, if_cases, lt→ltb, ==_iff, Option, none, some, List, [], ◌∷◌, arith,
  add64, sub64, ◌≢◌,
}
use sstoraged.Volume.{LowHandle}
use sstoraged.Cache.{WriteSegment, lba2offset}
use sstoraged.Buffers.{common_buf_size}
use sstoraged.DiskWriter.{
  Pwrite, Extent, do_write, get_handle, WriteCall, Part, after_calls, write_part, write_bufs,
  write_segment,
}
use sstoraged.DiskWriter.Resolve.{located, Laid, Resolved, get_handle-Resolved}
use sstoraged.DiskWriter.Lands.{Lands, Lands-same, Failed, PartDone, after-PartDone}

-- Where the byte `j` of a segment lies: the data begin at `ds` of the first buffer and fill each buffer
-- to its end.
abbrev pub source : List ℕ → ℕ → ℕ → ℕ × ℕ
source [] ds j = (0, 0)
source (b ∷ l) ds j =
    if ltb j (common_buf_size - ds) then (b, ds + j) else source l 0 (j - (common_buf_size - ds))

abbrev pub room : List ℕ → ℕ → ℕ
room [] ds = 0
room (b ∷ l) ds = (common_buf_size - ds) + room l 0

source-here :
    (b : ℕ) (l : List ℕ) (ds j : ℕ)
    → j < common_buf_size - ds
    → (b, ds + (0 + j)) ≡ source (b ∷ l) ds j
source-here b l ds j lt =
    let e : ds + (0 + j) ≡ ds + j = omega arith in
    ground (arith, lt, ap {B = ℕ × ℕ} (λ x. (b, x)) e)

source-next :
    (b : ℕ) (l : List ℕ) (ds j n : ℕ)
    → n ≡ common_buf_size - ds
    → source l 0 j ≡ source (b ∷ l) ds (n + j)
source-next b l ds j n e =
    let f : n + j - (common_buf_size - ds) ≡ j = omega (arith, e) in
    ground (arith, e, ap (source l 0) f)

module _ (handles : List (ℕ × LowHandle)) (outcomes : ℕ → List Pwrite) (head : ℕ → ℕ)
    (laid : Laid handles)
    (returns : (k ptr count offset : ℕ) → do_write (outcomes k) ptr count offset ≢ none) where
  -- The handle and the call at the start of what is left of a part.
  part_handle :
      (ds start size offset path covered real : ℕ)
      → get_handle handles start size ≡ some (path, covered, real)
      → ds + (offset + size) ≤ common_buf_size
      → get_handle handles (start + 0) (min (size - 0) (common_buf_size - (ds + (offset + 0))))
        ≡ some (path, covered, real)
  part_handle ds start size offset path covered real at fits =
      let here : start + 0 ≡ start = omega arith in
      let all : min (size - 0) (common_buf_size - (ds + (offset + 0))) ≡ size =
        omega (arith, fits) in
      rw (here, all) at

  part_place :
      (name ds offset n covered real : ℕ) (l : List Extent)
      → do_write (outcomes n) (head name + ds + offset) covered real ≡ some (false, l)
      → do_write (outcomes (n + 0)) (head name + (ds + (offset + 0))) covered real ≡ some (false, l)
  part_place name ds offset n covered real l e =
      let call : n + 0 ≡ n = omega arith in
      let place : head name + (ds + (offset + 0)) ≡ head name + ds + offset = omega arith in
      rw (call, place) e

  -- One round of the loop, with what the rest does.
  part_round :
      (name ds start size offset n path covered real : ℕ) (rest : Part)
      (o : Option (Bool × List Extent))
      → Resolved handles start size (some (path, covered, real))
      → get_handle handles start size ≡ some (path, covered, real)
      → ds + (offset + size) ≤ common_buf_size
      → o ≡ do_write (outcomes n) (head name + ds + offset) covered real
      → PartDone handles outcomes head
          (suc n)
          (λ j. (name, ds + (offset + covered + j)))
          (start + covered)
          (size - covered)
          rest
      → PartDone handles outcomes head n
          (λ j. (name, ds + (offset + j)))
          start
          size
          (elim o [
            | none ↦ none
            | some (false, l) ↦ some (false, start, suc n, [])
            | some (true, l) ↦
                after_calls
                  (record {
                    path = path;
                    buf = name;
                    buf_offset = ds + offset;
                    size = covered;
                    offset = real;
                  }
                    ∷ [])
                  rest
          ])
  part_round name ds start size offset n path covered real rest none r at fits e p =
      absurd (returns n (head name + ds + offset) covered real (sym e))
  part_round name ds start size offset n path covered real rest (some (false, l)) r at fits e p = (
    0,
    (
      omega arith,
      (
        (refl, λ j lt. absurd (omega (arith, lt))),
        (
          omega arith,
          (
            omega arith,
            (
              omega (arith, r.0, r.1.0),
              path,
              covered,
              real,
              l,
              part_handle ds start size offset path covered real at fits,
              part_place name ds offset n covered real l (sym e),
            ),
          ),
        ),
      ),
    ),
  )
  part_round name ds start size offset n path covered real rest (some (true, l)) r at fits e p =
      let next_call : suc n ≡ n + 1 = omega arith in
      let call : WriteCall = record {
        path = path;
        buf = name;
        buf_offset = ds + offset;
        size = covered;
        offset = real;
      } in
      after-PartDone handles outcomes head n (λ j. (name, ds + (offset + j)))
        (λ j. (name, ds + (offset + covered + j))) start size covered (call ∷ []) rest r.1.0
        (
          omega arith,
          λ j lt.
              let f : ltb j covered ≡ true = lt→ltb j covered lt in
              let g : ds + offset + j ≡ ds + (offset + j) = omega arith in
              rw (f, r.1.1.1 j lt) (ap (λ x. some ((path, real + j), (name, x))) g),
        )
        (λ j lt. ap (λ x. (name, ds + x)) (omega arith))
        (subst
          (λ (k : ℕ).
            PartDone handles outcomes head k (λ j. (name, ds + (offset + covered + j)))
              (start + covered) (size - covered) rest)
          next_call p)

  part_step :
      (fuel name ds start size offset n : ℕ) (g : Option (ℕ × ℕ × ℕ))
      → Resolved handles start size g
      → get_handle handles start size ≡ g
      → ds + (offset + size) ≤ common_buf_size
      → ((covered : ℕ)
          → 0 < covered
          → covered ≤ size
          → PartDone handles outcomes head
              (suc n)
              (λ j. (name, ds + (offset + covered + j)))
              (start + covered)
              (size - covered)
              (write_part outcomes head handles fuel name ds
                (add64 start covered)
                (sub64 size covered)
                (add64 offset covered)
                (suc n)))
      → PartDone handles outcomes head n
          (λ j. (name, ds + (offset + j)))
          start
          size
          (elim g [
            | none ↦ some (false, start, n, [])
            | some (path, covered, real) ↦
                elim (do_write (outcomes n) (head name + ds + offset) covered real) [
                  | none ↦ none
                  | some (false, l) ↦ some (false, start, suc n, [])
                  | some (true, l) ↦
                      after_calls
                        (record {
                          path = path;
                          buf = name;
                          buf_offset = ds + offset;
                          size = covered;
                          offset = real;
                        }
                          ∷ [])
                        (write_part outcomes head handles fuel name ds
                          (add64 start covered)
                          (sub64 size covered)
                          (add64 offset covered)
                          (suc n))
                ]
          ])
  part_step fuel name ds start size offset n none r at fits k = absurd r
  part_step fuel name ds start size offset n (some (path, covered, real)) r at fits k =
      part_round name ds start size offset n path covered real _
        (do_write (outcomes n) (head name + ds + offset) covered real) r at fits refl
        (k covered r.0 r.1.0)

  write_part-PartDone :
      (fuel name ds start size offset n : ℕ)
      → size < fuel
      → start + size < 2 ^ 63
      → offset + size < 2 ^ 63
      → ds + (offset + size) ≤ common_buf_size
      → ((j : ℕ) → j < size → located handles (start + j) ≢ none)
      → PartDone handles outcomes head n
          (λ j. (name, ds + (offset + j)))
          start
          size
          (write_part outcomes head handles fuel name ds start size offset n)
  unfolding write_part
  write_part-PartDone zero name ds start size offset n f z y fits h = absurd (omega (arith, f))
  write_part-PartDone (suc fuel) name ds start size offset n f z y fits h =
      if_cases (PartDone handles outcomes head n (λ j. (name, ds + (offset + j))) start size)
        (size == 0) _ _
        (λ q. (
          0,
          (
            omega arith,
            (
              (refl, λ j lt. absurd (omega (arith, lt))),
              (omega arith, (sym ((==_iff size 0).0 q), omega arith)),
            ),
          ),
        ))
        (λ q.
          let pos : 0 < size = ground (arith, q) in
          let here : located handles start ≢ none =
            λ e. h 0 pos (ap (located handles) (omega arith) ∙ e) in
          part_step fuel name ds start size offset n (get_handle handles start size)
            (get_handle-Resolved handles start size laid here pos) refl fits
            (λ covered a b.
              let e : add64 start covered ≡ start + covered = omega (arith, b, z) in
              let e' : sub64 size covered ≡ size - covered = omega (arith, b, z) in
              let e'' : add64 offset covered ≡ offset + covered = omega (arith, b, y) in
              rw (e, e', e'')
                (write_part-PartDone fuel name ds (start + covered) (size - covered)
                  (offset + covered) (suc n) (omega (arith, a, f)) (omega (arith, b, z))
                  (omega (arith, b, y)) (omega (arith, b, fits))
                  (λ j lt e.
                    h (covered + j) (omega (arith, lt, b))
                      (ap (located handles) (omega arith) ∙ e)))))

  -- What fails in a buffer fails in the segment.
  bufs-Failed :
      (name ds start length segment got k : ℕ) (l : List ℕ)
      → segment ≡ min length (common_buf_size - ds)
      → ds ≤ common_buf_size
      → Failed handles outcomes head (λ j. (name, ds + (0 + j))) start got segment k
      → Failed handles outcomes head (source (name ∷ l) ds) start got length k
  bufs-Failed name ds start length segment got k l e d (lt, path, covered, real, x, h, w) =
      let here : (name, ds + (0 + got)) ≡ source (name ∷ l) ds got =
        source-here name l ds got (omega (arith, lt, e)) in
      let left : min (segment - got) (common_buf_size - (ds + (0 + got)))
          ≡ min (length - got) (common_buf_size - (ds + (0 + got))) =
        omega (arith, e, lt, d) in
      (omega (arith, lt, e), path, covered, real, x, rw (← here) (rw (← left) h), rw (← here) w)

  bufs_step :
      (name ds start length segment n0 : ℕ) (l : List ℕ) (p : Part)
      → segment ≡ min length (common_buf_size - ds)
      → ds ≤ common_buf_size
      → PartDone handles outcomes head n0 (λ j. (name, ds + (0 + j))) start segment p
      → ((start' n : ℕ)
          → start' ≡ start + segment
          → PartDone handles outcomes head n
              (source l 0)
              (start + segment)
              (length - segment)
              (write_bufs outcomes head handles l 0 start' (sub64 length segment) n))
      → PartDone handles outcomes head n0 (source (name ∷ l) ds) start length (elim p [
        | none ↦ none
        | some (false, start', n, calls) ↦ some (false, start', n, calls)
        | some (true, start', n, calls) ↦
            after_calls calls (write_bufs outcomes head handles l 0 start' (sub64 length segment) n)
      ])
  bufs_step name ds start length segment n0 l none e d p k = p
  bufs_step name ds start length segment n0 l (some (false, start', n, calls)) e d
        (got, (b, (h, (s, (c, z))))) k =
      (
        got,
        (
          omega (arith, b, e),
          (
            Lands-same handles (λ j. (name, ds + (0 + j))) (source (name ∷ l) ds) start got calls
                (λ j lt. source-here name l ds j (omega (arith, lt, b, e))) h,
            (s, (c, bufs-Failed name ds start length segment got _ l e d z)),
          ),
        ),
      )
  bufs_step name ds start length segment n0 l (some (true, start', n, calls)) e d
        (got, (b, (h, (s, (z, c))))) k =
      after-PartDone handles outcomes head n0 (source (name ∷ l) ds) (source l 0) start length
        segment calls (write_bufs outcomes head handles l 0 start' (sub64 length segment) n)
        (omega (arith, e))
        (subst (λ x. Lands handles (source (name ∷ l) ds) start x calls) z
          (Lands-same handles (λ j. (name, ds + (0 + j))) (source (name ∷ l) ds) start got calls
            (λ j lt. source-here name l ds j (omega (arith, lt, b, e))) h))
        (λ j lt. source-next name l ds j segment (omega (arith, e, lt)))
        (subst
          (λ (q : ℕ).
            PartDone handles outcomes head q (source l 0) (start + segment) (length - segment)
              (write_bufs outcomes head handles l 0 start' (sub64 length segment) n))
          c (k start' n (omega (arith, s, z))))

  write_bufs-PartDone :
      (l : List ℕ) (ds start length n : ℕ)
      → ds ≤ common_buf_size
      → length ≤ room l ds
      → start + length < 2 ^ 63
      → ((j : ℕ) → j < length → located handles (start + j) ≢ none)
      → PartDone handles outcomes head n
          (source l ds)
          start
          length
          (write_bufs outcomes head handles l ds start length n)
  unfolding write_bufs
  write_bufs-PartDone [] ds start length n d r z h =
      let none_left : length ≡ 0 = omega (arith, r) in
      rw none_left (
        0,
        (
          omega arith,
          ((refl, λ j lt. absurd (omega (arith, lt))), (omega arith, (refl, omega arith))),
        ),
      )
  write_bufs-PartDone (b ∷ l) ds start length n d r z h =
      let segment = min length (sub64 common_buf_size ds) in
      let e : segment ≡ min length (common_buf_size - ds) = omega (arith, d) in
      bufs_step b ds start length segment n l
        (write_part outcomes head handles (suc segment) b ds start segment 0 n) e d
        (write_part-PartDone (suc segment) b ds start segment 0 n (omega arith)
          (omega (arith, z, e)) (omega (arith, z, e)) (omega (arith, e, d))
          (λ j lt. h j (omega (arith, lt, e))))
        (λ start' n' q.
          let f : sub64 length segment ≡ length - segment = omega (arith, z, e) in
          rw (q, f)
            (write_bufs-PartDone l 0 (start + segment) (length - segment) n' (omega arith)
              (omega (arith, r, e)) (omega (arith, z, e))
              (λ j lt k.
                h (segment + j) (omega (arith, lt)) (ap (located handles) (omega arith) ∙ k))))

  -- With handles that are not empty and do not overlap, and where every doWrite comes to an end: a
  -- segment whose data begin within its first buffer and fit in its buffers, and which lies on
  -- handles, is written from its first byte on, each byte once, from its place in the buffers to the
  -- place of its LBA, by one doWrite after the other; all of it, unless the next doWrite fails, after
  -- which nothing more is written. That one is of the bytes that follow: as many as the handle there
  -- covers of those that are left in the same buffer. Offsets are below 2 ^ 63.
  pub write_segment-PartDone :
      (ws : WriteSegment) (n : ℕ)
      → ws.ds_offset ≤ common_buf_size
      → lba2offset ws.transfer_length ≤ room ws.cbufs ws.ds_offset
      → lba2offset ws.lba + lba2offset ws.transfer_length < 2 ^ 63
      → ((j : ℕ)
          → j < lba2offset ws.transfer_length
          → located handles (lba2offset ws.lba + j) ≢ none)
      → PartDone handles outcomes head n
          (source ws.cbufs ws.ds_offset)
          (lba2offset ws.lba)
          (lba2offset ws.transfer_length)
          (write_segment outcomes head handles ws n)
  unfolding write_segment write_bufs
  write_segment-PartDone ws n d r z h =
      write_bufs-PartDone ws.cbufs ws.ds_offset (lba2offset ws.lba) (lba2offset ws.transfer_length)
        n d r z h
