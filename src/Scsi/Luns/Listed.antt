-- ===== src/Scsi/Luns/Listed.antt =====
-- The list that REPORT LUNS sends, and what becomes of a LUN of it that an initiator sends back.
use sstoraged.Common.{
  ℕ, zero, suc, ◌+◌, ◌*◌, ◌^◌, ◌≤◌, ◌<◌, ◌≡◌, refl, sym, ◌∙◌, ap, inl, inr, true, false, ltb, ◌==◌,
  if◌then◌else◌, Bool-cases, Option, none, some, List, [], ◌∷◌, map, length, get_elem?,
  get_elem?_past, add32, arith,
}
use sstoraged.Scsi.{lun_bytes, lun_get, get_lun}
use sstoraged.Scsi.Capacity.{put32}
use sstoraged.Scsi.Parts.{
  fitting, with_bytes, with_bytes_before, with_bytes_within, with_bytes_past, with_bytes_ap,
  with_bytes_none, with_bytes-append, fitting_past, fitting_omits, fitting_takes,
}
use sstoraged.Scsi.Luns.{list_length, add_lun, add_luns}

-- The entries of `n` LUNs from `id` on.
abbrev pub entries : ℕ → ℕ → List (List (Option ℕ))
entries id zero = []
entries id (suc n) = map some (lun_bytes id) ∷ entries (suc id) n

-- The length field, as it is written and as it is read.
list_length-put : (n : ℕ) (a : ℕ → ℕ) → n < 2 ^ 32 → list_length (with_bytes 0 (put32 n) a) ≡ n
list_length-put n a h =
    let at = with_bytes_within 0 (put32 n) a in
    omega (arith, at 0 0 refl, at 1 1 refl, at 2 2 refl, at 3 3 refl)

lun_bytes-length : (id : ℕ) → length (map some (lun_bytes id)) ≡ 8
unfolding lun_bytes
lun_bytes-length id = refl

module _ (limit : ℕ) (id : ℕ) (a : ℕ → ℕ) (counted : list_length a ≡ 8 * id)
    (small : 8 * id + 8 < 2 ^ 32) where
  told : add32 (list_length a) 8 ≡ 8 * id + 8
  told = omega (arith, counted, small)

  add_lun-fits :
      8 * id + 16 ≤ limit
      → add_lun limit id a
        ≡ with_bytes (8 * id + 8) (map some (lun_bytes id)) (with_bytes 0 (put32 (8 * id + 8)) a)
  unfolding add_lun
  add_lun-fits h = let near : ltb limit (8 + (8 * id + 8)) ≡ false = ground arith in rw (told, near)

  add_lun-omitted : limit < 8 * id + 16 → add_lun limit id a ≡ with_bytes 0 (put32 (8 * id + 8)) a
  unfolding add_lun
  add_lun-omitted h = let far : ltb limit (8 + (8 * id + 8)) ≡ true = ground arith in rw (told, far)

  add_lun-length : list_length (add_lun limit id a) ≡ 8 * id + 8
  add_lun-length =
      let t = with_bytes 0 (put32 (8 * id + 8)) a in
      let put = list_length-put (8 * id + 8) a small in
      elim (Bool-cases (ltb limit (8 * id + 16))) [
        | inl far ↦ ap list_length (add_lun-omitted (ground (arith, far))) ∙ put
        | inr near ↦
            ap list_length (add_lun-fits (ground (arith, near)))
            ∙ (let at = with_bytes_before (8 * id + 8) (map some (lun_bytes id)) t in
                omega (
                  arith,
                  put,
                  at 0 (omega arith),
                  at 1 (omega arith),
                  at 2 (omega arith),
                  at 3 (omega arith),
                ))
      ]

  add_lun_fits_at :
      8 * id + 16 ≤ limit
      → (i : ℕ) → 4 ≤ i
      → add_lun limit id a i ≡ with_bytes (8 * id + 8) (map some (lun_bytes id)) a i
  add_lun_fits_at h i k =
      ap (λ (f : ℕ → ℕ). f i) (add_lun-fits h)
      ∙ with_bytes_ap (8 * id + 8) (map some (lun_bytes id)) (with_bytes 0 (put32 (8 * id + 8)) a) a
          i (with_bytes_past 0 (put32 (8 * id + 8)) a i (omega (arith, k)))

  add_lun_omitted_at : limit < 8 * id + 16 → (i : ℕ) → 4 ≤ i → add_lun limit id a i ≡ a i
  add_lun_omitted_at h i k =
      ap (λ (f : ℕ → ℕ). f i) (add_lun-omitted h)
      ∙ with_bytes_past 0 (put32 (8 * id + 8)) a i (omega (arith, k))

  -- An entry more in front.
  entries_step :
      (n i : ℕ)
      → 4 ≤ i
      → with_bytes
          (8 * suc id + 8)
          (fitting limit (8 * suc id + 8) (entries (suc id) n))
          (add_lun limit id a)
          i
        ≡ with_bytes (8 * id + 8) (fitting limit (8 * id + 8) (entries id (suc n))) a i
  entries_step n i k =
      let p = map some (lun_bytes id) in
      let l = entries (suc id) n in
      let eight = lun_bytes-length id in
      let place : 8 * suc id + 8 ≡ 8 * id + 8 + length p = omega (arith, eight) in
      elim (Bool-cases (ltb limit (8 * id + 16))) [
        | inl far ↦
            ap (λ (q : List (Option ℕ)). with_bytes (8 * suc id + 8) q (add_lun limit id a) i)
              (fitting_past limit (8 * suc id + 8) l (ground (arith, far)))
            ∙ (with_bytes_none (8 * suc id + 8) (add_lun limit id a) i
                ∙ (add_lun_omitted_at (ground (arith, far)) i k
                    ∙ (sym (with_bytes_none (8 * id + 8) a i)
                        ∙ ap (λ (q : List (Option ℕ)). with_bytes (8 * id + 8) q a i)
                            (sym (
                              fitting_omits limit (8 * id + 8) p l (ground (arith, far, eight)))))))
        | inr near ↦
            with_bytes_ap (8 * suc id + 8) (fitting limit (8 * suc id + 8) l) (add_lun limit id a)
              (with_bytes (8 * id + 8) p a) i (add_lun_fits_at (ground (arith, near)) i k)
            ∙ (ap (λ (o : ℕ). with_bytes o (fitting limit o l) (with_bytes (8 * id + 8) p a) i)
                  place
                ∙ (sym (
                      with_bytes-append (8 * id + 8) p (fitting limit (8 * id + 8 + length p) l) a
                        i)
                    ∙ ap (λ (q : List (Option ℕ)). with_bytes (8 * id + 8) q a i)
                        (sym (fitting_takes limit (8 * id + 8) p l (ground (arith, near, eight))))))
      ]

-- The loop of REPORT LUNS over `n` LUNs, on a data segment that already counts the `id` before them.
-- The length field counts them all, whether or not their entries fit; behind it, the entries that end
-- within the allocation length stand in order, and all else is what it was.
pub add_luns-listed :
    (limit n id : ℕ) (a : ℕ → ℕ)
    → list_length a ≡ 8 * id
    → 8 * id + 8 * n < 2 ^ 32
    → (list_length (add_luns limit n id a) ≡ 8 * id + 8 * n)
      × ((i : ℕ)
          → 4 ≤ i
          → add_luns limit n id a i
            ≡ with_bytes (8 * id + 8) (fitting limit (8 * id + 8) (entries id n)) a i)
unfolding add_luns
add_luns-listed limit zero id a c h =
    (omega (arith, c), λ i k. sym (with_bytes_none (8 * id + 8) a i))
add_luns-listed limit (suc n) id a c h =
    let next : add32 id 1 ≡ suc id = omega arith in
    let (sum, at) =
      add_luns-listed limit n (suc id) (add_lun limit id a)
        (omega (arith, add_lun-length limit id a c (omega arith))) (omega arith) in
    (
      rw next (omega (arith, sum)),
      λ i k. rw next (at i k ∙ entries_step limit id a c (omega arith) n i k),
    )

-- A LUN of the list, sent back in a command of an initiator with at most 2^16 LUNs: getLUN finds the
-- first volume for the first, and none for any other, since the bytes are not put in the order of the
-- host again.
pub get_lun-listed :
    (lvs : List ℕ) (id : ℕ)
    → id < length lvs
    → length lvs ≤ 2 ^ 16
    → get_lun (lun_get (lun_bytes id)) lvs ≡ (if id == 0 then get_elem? lvs 0 else none)
unfolding lun_bytes lun_get
get_lun-listed lvs zero h k = refl
get_lun-listed lvs (suc id) h k =
    let later : (suc id == 0) ≡ false = ground arith in
    rw later (get_elem?_past lvs (lun_get (lun_bytes (suc id))) (omega (arith, h, k)))
