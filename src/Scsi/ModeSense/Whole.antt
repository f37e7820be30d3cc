-- ===== src/Scsi/ModeSense/Whole.antt =====
-- The data of a whole MODE SENSE request.
use sstoraged.Common.{
  ℕ, ◌+◌, ◌-◌, ◌≤◌, ◌<◌, ◌≡◌, refl, sym, subst, ◌∙◌, ap, inl, inr, Bool, true, false, ltb, ◌==◌,
  if◌then◌else◌, if_cases, Bool-cases, Option, none, some, List, [], ◌∷◌, arith,
}
use sstoraged.Scsi.Parts.{
  fitting, length_all, with_bytes, with_bytes_before, with_bytes_past, with_bytes_ap,
  with_bytes_none, length-fitting, fitting_past,
}
use sstoraged.Scsi.ModeSense.{
  ModeData, append_page, append_pages, append_block_descriptor, block_descriptor, pages,
  mode_header, mode_data,
}
use sstoraged.Scsi.ModeSense.Layout.{append_pages-total, append_pages-area, append_pages-length}

-- All pages together are short.
Short : Option (List (List (Option ℕ))) → Type 0
Short none = Unit
Short (some l) = length_all l ≤ 92

pages-Short : (code : ℕ) → Short (pages code)
unfolding Short
pages-Short code =
    if_cases Short (code == 0x00) _ _ (λ _. omega arith)
      (λ _.
        if_cases Short (code == 0x02) _ _ (λ _. omega arith)
          (λ _.
            if_cases Short (code == 0x03) _ _ (λ _. omega arith)
              (λ _.
                if_cases Short (code == 0x04) _ _ (λ _. omega arith)
                  (λ _.
                    if_cases Short (code == 0x08) _ _ (λ _. omega arith)
                      (λ _.
                        if_cases Short (code == 0x0A) _ _ (λ _. omega arith)
                          (λ _.
                            if_cases Short (code == 0x1C) _ _ (λ _. omega arith)
                              (λ _.
                                if_cases Short (code == 0x3F) _ _ (λ _. omega arith)
                                  (λ _. tt))))))))

-- The parts behind the header.
abbrev pub parts : Bool → ℕ → List (List (Option ℕ)) → List (List (Option ℕ))
parts dbd size l = if dbd then l else block_descriptor size ∷ l

-- With the block descriptor in front, what is appended is a list of parts too.
append_all : (alloc size : ℕ) (dbd : Bool) (l : List (List (Option ℕ))) (a : ℕ → ℕ) → ModeData
append_all alloc size dbd l a = append_pages alloc l (
    if dbd
    then record { total = 4; area = a }
    else append_block_descriptor alloc size (record { total = 4; area = a }))

append_block_descriptor-total :
    (alloc size : ℕ) (a : ℕ → ℕ)
    → (append_block_descriptor alloc size (record { total = 4; area = a })).total ≡ 12
unfolding append_block_descriptor
append_block_descriptor-total alloc size a = ground arith

append_all-total :
    (alloc size : ℕ) (dbd : Bool) (l : List (List (Option ℕ))) (a : ℕ → ℕ)
    → (append_all alloc size dbd l a).total ≡ 4 + length_all (parts dbd size l)
unfolding append_all
append_all-total alloc size true l a = append_pages-total alloc l (record { total = 4; area = a })
append_all-total alloc size false l a =
    let d = append_block_descriptor alloc size (record { total = 4; area = a }) in
    omega (arith, append_pages-total alloc l d, append_block_descriptor-total alloc size a)

append_pages-cons :
    (limit : ℕ) (p : List (Option ℕ)) (l : List (List (Option ℕ))) (d : ModeData)
    → append_pages limit l (append_page limit p d) ≡ append_pages limit (p ∷ l) d
unfolding append_pages
append_pages-cons limit p l d = refl

-- The block descriptor is a part like the others, but its omission leaves the length byte.
append_block_descriptor-near :
    (alloc size : ℕ) (d : ModeData)
    → ltb alloc (d.total + 8) ≡ false
    → append_block_descriptor alloc size d ≡ append_page alloc (block_descriptor size) d
unfolding append_block_descriptor
append_block_descriptor-near alloc size d near = rw near

append_block_descriptor-far :
    (alloc size : ℕ) (d : ModeData)
    → ltb alloc (d.total + 8) ≡ true
    → append_block_descriptor alloc size d ≡ record d { total = d.total + 8 }
unfolding append_block_descriptor
append_block_descriptor-far alloc size d far = rw far

append_all-area :
    (alloc size : ℕ) (dbd : Bool) (l : List (List (Option ℕ))) (a : ℕ → ℕ)
    → length_all l ≤ 92
    → (i : ℕ) → 0 < i
    → (append_all alloc size dbd l a).area i ≡ with_bytes 4 (fitting alloc 4 (parts dbd size l)) a i
unfolding append_all
append_all-area alloc size true l a h i z =
    append_pages-area alloc l (record { total = 4; area = a }) (omega (arith, h)) i z
append_all-area alloc size false l a h i z =
    let start : ModeData = record { total = 4; area = a } in
    let bd = block_descriptor size in
    elim (Bool-cases (ltb alloc 12)) [
      | inr near ↦
          ap (λ (d : ModeData). d.area i)
            (ap (append_pages alloc l) (append_block_descriptor-near alloc size start near)
              ∙ append_pages-cons alloc bd l start)
          ∙ append_pages-area alloc (bd ∷ l) start (omega (arith, h)) i z
      | inl far ↦
          ap (λ (d : ModeData). (append_pages alloc l d).area i)
            (append_block_descriptor-far alloc size start far)
          ∙ (append_pages-area alloc l (record { total = 12; area = a }) (omega (arith, h)) i z
              ∙ (ap (λ (q : List (Option ℕ)). with_bytes 12 q a i)
                    (fitting_past alloc 12 l (ground (arith, far)))
                  ∙ (with_bytes_none 12 a i
                      ∙ (sym (with_bytes_none 4 a i)
                          ∙ ap (λ (q : List (Option ℕ)). with_bytes 4 q a i) (nothing far)))))
    ]
  where
    nothing : ltb alloc 12 ≡ true → [] ≡ fitting alloc 4 (block_descriptor size ∷ l)
    nothing far = rw far

-- What the data of an answered request is. The length byte is set by the pages.
pub record Laid (alloc : ℕ) (dbd : Bool) (size : ℕ) (l : List (List (Option ℕ))) (fresh : ℕ → ℕ)
    (d : ModeData) : Type 0 where
  pub total : d.total ≡ 4 + length_all (parts dbd size l)
  pub length_byte : 0 < length_all l → d.area 0 ≡ d.total - 1
  pub header : (d.area 1 ≡ 0) × ((d.area 2 ≡ 0) × (d.area 3 ≡ (if dbd then 0 else 8)))
  pub body : (i : ℕ) → 4 ≤ i → d.area i ≡ with_bytes 4 (fitting alloc 4 (parts dbd size l)) fresh i
  pub bound : (i : ℕ) → alloc ≤ i → d.area i ≡ fresh i

mode_header-zero :
    (alloc : ℕ) (dbd : Bool) (fresh : ℕ → ℕ)
    → 4 ≤ alloc
    → (mode_header alloc dbd fresh 1 ≡ 0)
      × ((mode_header alloc dbd fresh 2 ≡ 0)
          × (mode_header alloc dbd fresh 3 ≡ (if dbd then 0 else 8)))
unfolding mode_header
mode_header-zero alloc dbd fresh h =
    let room : ltb alloc 4 ≡ false = ground arith in ground (arith, room)

mode_header_past :
    (alloc : ℕ) (dbd : Bool) (fresh : ℕ → ℕ) (i : ℕ)
    → 4 ≤ i
    → mode_header alloc dbd fresh i ≡ fresh i
unfolding mode_header
mode_header_past alloc dbd fresh i h =
    let P = λ (a : ℕ → ℕ). a i ≡ fresh i in
    let zeros : List (Option ℕ) = some 0 ∷ (some 0 ∷ (some 0 ∷ (some 0 ∷ []))) in
    let empty = if ltb alloc 4 then fresh else with_bytes 0 zeros fresh in
    let e : empty i ≡ fresh i =
      if_cases P (ltb alloc 4) fresh (with_bytes 0 zeros fresh) (λ _. refl)
        (λ _. with_bytes_past 0 zeros fresh i (omega (arith, h))) in
    if_cases P dbd empty (with_bytes 3 (some 8 ∷ []) empty) (λ _. e)
      (λ _. with_bytes_past 3 (some 8 ∷ []) empty i (omega (arith, h)) ∙ e)

append_all-length :
    (alloc size : ℕ) (dbd : Bool) (l : List (List (Option ℕ))) (a : ℕ → ℕ)
    → 0 < length_all l
    → length_all l ≤ 92
    → (append_all alloc size dbd l a).area 0 ≡ (append_all alloc size dbd l a).total - 1
unfolding append_all
append_all-length alloc size dbd [] a z h = absurd (omega (arith, z))
append_all-length alloc size true (p ∷ l) a z h =
    let d : ModeData = record { total = 4; area = a } in
    omega (arith, append_pages-length alloc p l d (omega arith), append_pages-total alloc (p ∷ l) d)
append_all-length alloc size false (p ∷ l) a z h =
    let d = append_block_descriptor alloc size (record { total = 4; area = a }) in
    omega (
      arith,
      append_pages-length alloc p l d (omega (arith, append_block_descriptor-total alloc size a)),
      append_pages-total alloc (p ∷ l) d,
      append_block_descriptor-total alloc size a,
    )

-- MODE SENSE with an allocation length of five bytes or more and a known page code: there is data, as
-- long as the header, the block descriptor unless DBD is set, and the pages in the order of the
-- switch. A byte behind the header is the one that the list of these parts has there, up to the first
-- part that does not end within the allocation length; a byte that no part sets, and every byte from
-- the allocation length on, is what the new buffer held. Where there is a page the first byte is the
-- whole length less one, whether or not all of it is there.
pub mode_data-Laid :
    (alloc : ℕ) (dbd : Bool) (code size : ℕ) (l : List (List (Option ℕ))) (fresh : ℕ → ℕ)
    → 4 < alloc
    → pages code ≡ some l
    → (d : ModeData) × ((mode_data alloc dbd code size fresh ≡ some d)
        × Laid alloc dbd size l fresh d)
unfolding mode_data append_all Short
mode_data-Laid alloc dbd code size l fresh h p =
    let a = mode_header alloc dbd fresh in
    let d = append_all alloc size dbd l a in
    let long : (alloc == 4) ≡ false = ground arith in
    let short : length_all l ≤ 92 = subst Short p (pages-Short code) in
    let fits = fitting alloc 4 (parts dbd size l) in
    let first : (i : ℕ) → 0 < i → i < 4 → d.area i ≡ a i =
      λ i z k. append_all-area alloc size dbd l a short i z ∙ with_bytes_before 4 fits a i k in
    let body : (i : ℕ) → 4 ≤ i → d.area i ≡ with_bytes 4 fits fresh i = λ i k.
      append_all-area alloc size dbd l a short i (omega arith)
      ∙ with_bytes_ap 4 fits a fresh i (mode_header_past alloc dbd fresh i k) in
    let zeros = mode_header-zero alloc dbd fresh (omega (arith, h)) in
    (
      d,
      (
        rw (long, p),
        record {
          total = append_all-total alloc size dbd l a;
          length_byte = λ z. append_all-length alloc size dbd l a z short;
          header = (
            first 1 (omega arith) (omega arith) ∙ zeros.0,
            (
              first 2 (omega arith) (omega arith) ∙ zeros.1.0,
              first 3 (omega arith) (omega arith) ∙ zeros.1.1,
            ),
          );
          body = body;
          bound = λ i k.
              body i (omega (arith, h, k))
              ∙ with_bytes_past 4 fits fresh i (
                  let e = length-fitting alloc 4 (parts dbd size l) (omega (arith, h)) in
                  omega (arith, e, k));
        },
      ),
    )
