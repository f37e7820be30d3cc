-- ===== src/SendCache/Position.antt =====
-- Where a SendCacheTask stands in the data of its segment.
use sstoraged.Common.{
  ℕ, ◌+◌, ◌-◌, ◌*◌, ◌^◌, ◌≤◌, ◌<◌, ◌≡◌, refl, ap, ◌∙◌, true, false, ltb, leb, ◌==◌, if◌then◌else◌,
  List, ◌∷◌, length, All, arith, Bool-cases, inl, inr, add64, sub64,
}
use sstoraged.Cache.{lba2offset}
use sstoraged.SendCache.{SendCacheTask, drop, advance, step, new_task, step_forward}
use sstoraged.SendCache.Place.{
  sum, data_sizes, place, advance_first, advance-Stepped, place-add, drop-data_sizes, drop-length,
}

-- How far into the data of its segment a task stands.
abbrev pub position : SendCacheTask → ℕ
position t = place (data_sizes t.ds_offset t.sizes) t.cur_index t.offset

-- What a step needs: the buffers left, and n bytes in them.
pub record Room (t : SendCacheTask) (n b : ℕ) (l : List ℕ) : Type 0 where
  pub left : drop t.cur_index t.sizes ≡ b ∷ l
  pub inside : t.offset + (if t.cur_index == 0 then t.ds_offset else 0) ≤ b
  pub enough : n ≤ b - (if t.cur_index == 0 then t.ds_offset else 0) - t.offset + sum l
  pub fits : All (λ b. b < 2 ^ 64) (b ∷ l)

step-position :
    (t : SendCacheTask) (n b : ℕ) (l : List ℕ)
    → Room t n b l
    → n < t.total_remain
    → (c : ℕ) × (k : ℕ) × (advance t.total_remain t.ds_offset
          (drop t.cur_index t.sizes)
          t.cur_index
          t.offset
          n
        ≡ (true, c, k))
      × (position (record t { cur_index = c; offset = k }) ≡ position t + n)
step-position t n b l m r =
    let d = if t.cur_index == 0 then t.ds_offset else 0 in
    let (c, k, f, g) =
      advance_first t.total_remain t.ds_offset b l t.cur_index t.offset n d refl m.inside m.fits.0 r
        (λ i h j.
          advance-Stepped t.total_remain t.ds_offset l (t.cur_index + 1) i (omega arith)
            (omega arith) (omega (arith, m.enough)) m.fits.1) in
    (
      t.cur_index + c,
      k,
      rw (m.left, f),
      moved t.cur_index c k t.offset (data_sizes t.ds_offset t.sizes) ((b - d) ∷ l) n
          (drop-data_sizes t.ds_offset b t.sizes t.cur_index l m.left) refl g,
    )
  where
    moved :
        (cur c k off : ℕ) (bytes rest : List ℕ) (n : ℕ)
        → drop cur bytes ≡ rest
        → place rest 0 off ≡ off
        → place rest c k ≡ off + n
        → place bytes (cur + c) k ≡ place bytes cur off + n
    moved cur c k off bytes rest n x y z =
        let here : place bytes (cur + 0) off ≡ place bytes cur 0 + off =
          place-add bytes cur 0 off
          ∙ ap (λ m. place bytes cur 0 + m) (ap (λ r. place r 0 off) x ∙ y) in
        let same : cur + 0 ≡ cur = omega arith in
        let there : place bytes (cur + c) k ≡ place bytes cur 0 + (off + n) =
          place-add bytes cur c k ∙ ap (λ m. place bytes cur 0 + m) (ap (λ r. place r c k) x ∙ z) in
        omega (arith, there, rw same at here)

-- A step over less than what remains, within the data, moves the task by as many bytes of the data:
-- from any buffer, the first one included, where the data begins behind `ds_offset` bytes. The sizes
-- of the buffers fit 64 bits.
pub step_forward-position :
    (t : SendCacheTask) (n b : ℕ) (l : List ℕ)
    → Room t n b l
    → n < t.total_remain
    → (t' : SendCacheTask) × (step_forward t n ≡ (true, t'))
      × (position t' ≡ position t + n)
      × (t'.total_remain + n ≡ t.total_remain)
unfolding step_forward step
step_forward-position t n b l m r =
    let in_range : leb (length t.sizes) t.cur_index ≡ false =
      ground (arith, drop-length t.sizes t.cur_index b l m.left) in
    let enough : ltb t.total_remain n ≡ false = ground arith in
    let (c, k, f, g) = step-position t n b l m r in
    (
      record t { cur_index = c; offset = k; total_remain = t.total_remain - n },
      rw (f, in_range, enough),
      g,
      omega arith,
    )

-- A new task for a positive number of blocks within the buffers stands at the first of them: 512 bytes
-- for each block between the head of the segment and `clba`, and has 512 bytes for each to send.
pub new_task-position :
    (sizes : List ℕ) (ds lba clba blocks b : ℕ) (l : List ℕ)
    → sizes ≡ b ∷ l
    → ds ≤ b
    → All (λ b. b < 2 ^ 64) sizes
    → lba ≤ clba
    → 0 < blocks
    → 512 * (clba - lba + blocks) ≤ b - ds + sum l
    → 512 * (clba - lba + blocks) < 2 ^ 64
    → clba < 2 ^ 64
    → (position (new_task sizes ds lba clba blocks) ≡ 512 * (clba - lba))
      × ((new_task sizes ds lba clba blocks).total_remain ≡ 512 * blocks)
unfolding new_task step
new_task-position sizes ds lba clba blocks b l e o w h p s v x = elim (Bool-cases (ltb lba clba)) [
  | inr same ↦
      let there : clba - lba ≡ 0 = ground (arith, same) in
      rw (same, there, e) (omega arith, omega (arith, v))
  | inl ahead ↦
      let skip : lba2offset (sub64 clba lba) ≡ 512 * (clba - lba) = omega (arith, v) in
      let total : add64 (lba2offset blocks) (512 * (clba - lba)) ≡ 512 * (clba - lba + blocks) =
        omega (arith, v) in
      let t : SendCacheTask = record {
        sizes = b ∷ l;
        ds_offset = ds;
        total_remain = 512 * (clba - lba + blocks);
        cur_index = 0;
        offset = 0;
      } in
      let (c, k, f, g) =
        step-position t (512 * (clba - lba)) b l
          (record {
            left = refl;
            inside = omega (arith, o);
            enough = omega (arith, s);
            fits = rw e at w;
          })
          (omega arith) in
      rw (ahead, skip, total, e, f) (omega (arith, g), omega (arith, v))
]
