-- ===== src/Scsi/ModeSense/Layout.antt =====
-- Where the bytes of MODE SENSE data are.
use sstoraged.Common.{
  ℕ, ◌+◌, ◌-◌, ◌%◌, ◌≤◌, ◌<◌, ◌≡◌, refl, sym, ◌∙◌, ap, inl, inr, true, false, ◌||◌, ltb, if_cases,
  Bool-cases, Option, some, List, [], ◌∷◌, length, arith,
}
use sstoraged.Scsi.Parts.{
  fitting, length_all, with_bytes, with_bytes_before, with_bytes_within, with_bytes_past,
  with_bytes_ap, with_bytes_none, with_bytes-append, fitting_past,
}
use sstoraged.Scsi.ModeSense.{ModeData, put_length, append_page, append_pages}

-- The length byte is the only one that it changes.
put_length_other : (n : ℕ) (a : ℕ → ℕ) (i : ℕ) → 0 < i → put_length n a i ≡ a i
put_length_other n a i h = with_bytes_past 0 (some (n % 256) ∷ []) a i (omega (arith, h))

put_length_zero : (n : ℕ) (a : ℕ → ℕ) → put_length n a 0 ≡ n % 256
put_length_zero n a = with_bytes_within 0 (some (n % 256) ∷ []) a 0 0 refl

module _ (limit : ℕ) where
  append_page-total :
      (p : List (Option ℕ)) (d : ModeData) → (append_page limit p d).total ≡ d.total + length p
  unfolding append_page
  append_page-total p d = ground arith

  append_page-fits :
      (p : List (Option ℕ)) (d : ModeData)
      → d.total + length p ≤ limit
      → d.total + length p ≤ 256
      → (i : ℕ) → 0 < i
      → (append_page limit p d).area i ≡ with_bytes d.total p d.area i
  unfolding append_page
  append_page-fits p d h k i z =
      let near : ltb limit (d.total + length p) ≡ false = ground arith in
      let short : ltb 0x100 (d.total + length p) ≡ false = ground arith in
      rw (near, short)
        (with_bytes_ap d.total p (put_length (d.total + length p - 1) d.area) d.area i
          (put_length_other (d.total + length p - 1) d.area i z))

  append_page-omitted :
      (p : List (Option ℕ)) (d : ModeData)
      → limit < d.total + length p
      → (i : ℕ) → 0 < i
      → (append_page limit p d).area i ≡ d.area i
  unfolding append_page
  append_page-omitted p d h i z =
      let far : ltb limit (d.total + length p) ≡ true = ground arith in
      rw far (put_length_other (d.total + length p - 1) d.area i z)

  append_page-length :
      (p : List (Option ℕ)) (d : ModeData)
      → 0 < d.total
      → (append_page limit p d).area 0 ≡ (d.total + length p - 1) % 256
  unfolding append_page
  append_page-length p d z =
      let total = d.total + length p in
      let told = put_length (total - 1) d.area in
      if_cases (λ (x : ModeData). x.area 0 ≡ (total - 1) % 256) (ltb limit total || ltb 0x100 total)
        (record { total = total; area = told })
        (record { total = total; area = with_bytes d.total p told })
        (λ _. put_length_zero (total - 1) d.area)
        (λ _. with_bytes_before d.total p told 0 z ∙ put_length_zero (total - 1) d.area)

  pub append_pages-total :
      (l : List (List (Option ℕ))) (d : ModeData)
      → (append_pages limit l d).total ≡ d.total + length_all l
  unfolding append_pages
  append_pages-total [] d = omega arith
  append_pages-total (p ∷ l) d =
      omega (arith, append_pages-total l (append_page limit p d), append_page-total p d)

  pub append_pages-area :
      (l : List (List (Option ℕ))) (d : ModeData)
      → d.total + length_all l ≤ 256
      → (i : ℕ) → 0 < i
      → (append_pages limit l d).area i ≡ with_bytes d.total (fitting limit d.total l) d.area i
  unfolding append_pages
  append_pages-area [] d h i z = sym (with_bytes_none d.total d.area i)
  append_pages-area (p ∷ l) d h i z =
      let d1 = append_page limit p d in
      let total : d1.total ≡ d.total + length p = append_page-total p d in
      let rest : (append_pages limit l d1).area i
          ≡ with_bytes d1.total (fitting limit d1.total l) d1.area i =
        append_pages-area l d1 (omega (arith, h, total)) i z in
      elim (Bool-cases (ltb limit (d.total + length p))) [
        | inl far ↦ rw far (
            rest
            ∙ (ap (λ (q : List (Option ℕ)). with_bytes d1.total q d1.area i)
                  (fitting_past limit d1.total l (ground (arith, far, total)))
                ∙ (with_bytes_none d1.total d1.area i
                    ∙ (append_page-omitted p d (ground (arith, far)) i z
                        ∙ sym (with_bytes_none d.total d.area i)))))
        | inr near ↦ rw near (
            rest
            ∙ (ap (λ (t : ℕ). with_bytes t (fitting limit t l) d1.area i) total
                ∙ (with_bytes_ap (d.total + length p) (fitting limit (d.total + length p) l) d1.area
                      (with_bytes d.total p d.area) i
                      (append_page-fits p d (ground (arith, near)) (omega (arith, h)) i z)
                    ∙ sym (
                        with_bytes-append d.total p (fitting limit (d.total + length p) l) d.area
                          i))))
      ]

  -- The length byte: of the last page, whether or not it fits.
  pub append_pages-length :
      (p : List (Option ℕ)) (l : List (List (Option ℕ))) (d : ModeData)
      → 0 < d.total
      → (append_pages limit (p ∷ l) d).area 0 ≡ (d.total + length_all (p ∷ l) - 1) % 256
  unfolding append_pages
  append_pages-length p [] d z =
      append_page-length p d z ∙ ap (λ (t : ℕ). (t - 1) % 256) (omega arith)
  append_pages-length p (q ∷ l) d z =
      append_pages-length q l (append_page limit p d) (omega (arith, z, append_page-total p d))
      ∙ ap (λ (t : ℕ). (t - 1) % 256) (omega (arith, append_page-total p d))
