-- ===== src/Scsi/ModeSense.antt =====
-- include/scsi/modesense.h and src/scsi/modesense.cpp: MODE SENSE(6). In the CDB, DBD is bit 3 of byte
-- 1, the page code is in byte 2, the allocation length is byte 4.
pub mod Layout
pub mod Whole
use sstoraged.Common.{
  ℕ, ◌+◌, ◌-◌, ◌/◌, ◌%◌, ◌^◌, min, Bool, true, false, not, ◌&&◌, ◌||◌, ltb, leb, ◌==◌,
  if◌then◌else◌, Option, none, some, List, [], ◌∷◌, ◌++◌, length,
}
use sstoraged.Session.{Session, DataReply, advance_statsn}
use sstoraged.DataInBuffer.{
  DataInGenerator, reserve_data_segment, reset_dlength, set_residual_count, serialize,
}
use sstoraged.Scsi.{
  CommandHeader, byte, flag, to_req, accepts, unset, good, start_reply, finish_reply, overlay,
}
use sstoraged.Scsi.Capacity.{put32}

-- The mode pages, with the bytes that the code sets.
abbrev pub disconnect_reconnect : List (Option ℕ)
disconnect_reconnect =
    some 0x02 ∷ (some 14 ∷ (some 0x80 ∷ (some 0x80 ∷ (none ∷ (some 10 ∷ unset 10 [])))))

abbrev pub format_device : List (Option ℕ)
format_device =
    some 0x03
    ∷ (some 22 ∷ unset 8 (some 1 ∷ (none ∷ (some 2 ∷ (none ∷ unset 6 (some 0x0c ∷ unset 3 []))))))

abbrev pub rigid_disk_geometry : List (Option ℕ)
rigid_disk_geometry =
    some 0x04
    ∷ (some 22
        ∷ (some 0
            ∷ (some 0
                ∷ (some 0x80 ∷ (some 0x40 ∷ unset 14 (some 0x3a ∷ (some 0x98 ∷ unset 2 [])))))))

abbrev pub caching : List (Option ℕ)
caching = some 0x08 ∷ (some 2 ∷ (some 0x14 ∷ (none ∷ [])))

abbrev pub control : List (Option ℕ)
control = some 0x0A ∷ (some 10 ∷ (some 0x02 ∷ unset 7 (some 0x01 ∷ (some 0xf4 ∷ []))))

abbrev pub informational_exceptions : List (Option ℕ)
informational_exceptions = some 0x1C ∷ (some 10 ∷ (some 0x08 ∷ unset 9 []))

-- The pages that the switch appends.
abbrev pub pages : ℕ → Option (List (List (Option ℕ)))
pages code =
    if code == 0x00
    then some []
    else if code == 0x02
    then some (disconnect_reconnect ∷ [])
    else if code == 0x03
    then some (format_device ∷ [])
    else if code == 0x04
    then some (rigid_disk_geometry ∷ [])
    else if code == 0x08
    then some (caching ∷ [])
    else if code == 0x0A
    then some (control ∷ [])
    else if code == 0x1C
    then some (informational_exceptions ∷ [])
    else if code == 0x3F
    then some (
        disconnect_reconnect
        ∷ (format_device
            ∷ (rigid_disk_geometry ∷ (caching ∷ (control ∷ (informational_exceptions ∷ []))))))
    else none

-- `ModeSenseData`: `total`, and the bytes of the data segment.
pub record ModeData : Type 0 where
  pub total : ℕ
  pub area : ℕ → ℕ

abbrev pub header_size : ℕ
header_size = 4

-- mode_data_length
abbrev pub put_length : ℕ → (ℕ → ℕ) → ℕ → ℕ
put_length n area = overlay area 0 (some (n % 256) ∷ []) area

-- The six functions that append a page, which differ in the page only.
unfoldable pub append_page : ℕ → List (Option ℕ) → ModeData → ModeData
unfolding overlay
append_page limit page d =
    let total = d.total + length page in
    let told = put_length (total - 1) d.area in
    if ltb limit total || ltb 0x100 total
    then record { total = total; area = told }
    else record { total = total; area = overlay told d.total page told }

unfoldable pub append_pages : ℕ → List (List (Option ℕ)) → ModeData → ModeData
unfolding append_page
append_pages limit [] d = d
append_pages limit (page ∷ l) d = append_pages limit l (append_page limit page d)

-- `appendBlockDescriptor`, of a volume of `size` blocks: the block length is not set.
abbrev pub block_descriptor : ℕ → List (Option ℕ)
block_descriptor size = put32 (if size / 2 ^ 32 == 0 then size else 0xFFFFFFFF) ++ unset 4 []

unfoldable pub append_block_descriptor : ℕ → ℕ → ModeData → ModeData
unfolding append_page
append_block_descriptor limit size d =
    if ltb limit (d.total + 8)
    then record d { total = d.total + 8 }
    else append_page limit (block_descriptor size) d

-- The constructor, which writes the header where there is room for it, and block_descriptor_length.
unfoldable pub mode_header : ℕ → Bool → (ℕ → ℕ) → ℕ → ℕ
unfolding overlay
mode_header alloc dbd fresh =
    let empty =
      if ltb alloc 4
      then fresh
      else overlay fresh 0 (some 0 ∷ (some 0 ∷ (some 0 ∷ (some 0 ∷ [])))) fresh in
    if dbd then empty else overlay empty 3 (some 8 ∷ []) empty

-- The data of a request with an allocation length that is not 0; `none` is an unknown page.
unfoldable pub mode_data : ℕ → Bool → ℕ → ℕ → (ℕ → ℕ) → Option ModeData
unfolding append_pages append_block_descriptor mode_header
mode_data alloc dbd code size fresh =
    let start : ModeData = record { total = header_size; area = mode_header alloc dbd fresh } in
    if alloc == header_size
    then some (record start { area = put_length 0x1F start.area })
    else elim (pages code) [
      | none ↦ none
      | some l ↦
          some
            (append_pages alloc l (if dbd then start else append_block_descriptor alloc size start))
    ]

-- The end of `handle`: the length of the data segment is reset to what there is.
unfoldable pub finish_mode :
    ℕ → CommandHeader → DataReply → DataInGenerator → Session → ModeData → Bool × Session
unfolding reset_dlength set_residual_count serialize
finish_mode alloc h r g s d =
    let shrunk = reset_dlength (min d.total alloc) g in
    if shrunk.0
    then (
      true,
      finish_reply h.expdatalen (record r { gen = shrunk.1; area = d.area }) (advance_statsn s),
    )
    else (false, advance_statsn s)

-- The handler where the allocation length is 0: the data segment is a null pointer, which is written
-- through unless there is nothing to append.
abbrev pub null_mode : Bool → ℕ → Session → Option (Bool × Session)
null_mode dbd code s = if not dbd then none else elim (pages code) [
  | none ↦ some (false, advance_statsn s)
  | some [] ↦ some (false, advance_statsn s)
  | some (_ ∷ _) ↦ none
]

-- `ModeSenseHandler::handle`
unfoldable pub handle_mode_sense : ℕ → (ℕ → ℕ) → CommandHeader → Session → Option (Bool × Session)
unfolding mode_data finish_mode to_req reserve_data_segment
handle_mode_sense name fresh h s =
    let alloc = byte h.scb 4 in
    let dbd = flag (byte h.scb 1) 3 in
    let code = byte h.scb 2 % 2 ^ 6 in
    let r = start_reply name fresh good (to_req h) s in
    let g = reserve_data_segment alloc r.gen in
    if accepts (byte h.scb 0 == 0x1a) (to_req h)
    then elim (s.lun_size (to_req h).lun) [
      | none ↦ some (false, advance_statsn s)
      | some size ↦
          if g.0
          then elim (mode_data alloc dbd code size fresh) [
            | none ↦ some (false, advance_statsn s)
            | some d ↦ some (finish_mode alloc h r g.1 s d)
          ]
          else null_mode dbd code s
    ]
    else some (false, s)
