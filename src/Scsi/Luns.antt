-- ===== src/Scsi/Luns.antt =====
-- include/scsi/reportluns.h and src/scsi/reportluns.cpp: REPORT LUNS. The allocation length is in bytes
-- 6 to 9 of the CDB.
pub mod Listed
use sstoraged.Common.{
  ℕ, zero, suc, ◌+◌, ◌*◌, ◌^◌, Bool, true, false, not, ◌&&◌, ltb, ◌==◌, if◌then◌else◌, Option, none,
  some, List, [], ◌∷◌, ◌++◌, map, add32,
}
use sstoraged.Session.{Session, advance_statsn}
use sstoraged.DataInBuffer.{reserve_data_segment, serialize}
use sstoraged.Scsi.{
  CommandHeader, byte, be32, to_req, accepts, unset, good, start_reply, send_reply, overlay,
  lun_bytes,
}
use sstoraged.Scsi.Capacity.{put32}

-- ntohl of the first member of the data segment.
abbrev pub list_length : (ℕ → ℕ) → ℕ
list_length area = area 0 * 2 ^ 24 + area 1 * 2 ^ 16 + area 2 * 2 ^ 8 + area 3

-- `ReportLUNSData::add`, without its result, which is only logged.
unfoldable pub add_lun : ℕ → ℕ → (ℕ → ℕ) → ℕ → ℕ
unfolding overlay lun_bytes
add_lun limit id area =
    let n = add32 (list_length area) 8 in
    let told = overlay area 0 (put32 n) area in
    if ltb limit (8 + n) then told else overlay told n (map some (lun_bytes id)) told

-- The loop over the names: `n` is how many are left.
unfoldable pub add_luns : ℕ → ℕ → ℕ → (ℕ → ℕ) → ℕ → ℕ
unfolding add_lun
add_luns limit zero id area = area
add_luns limit (suc n) id area = add_luns limit n (add32 id 1) (add_lun limit id area)

-- `ReportLUNSHandler::handle`, of an initiator with `luns` LUNs. There is no residual count.
unfoldable pub handle_report_luns :
    ℕ → (ℕ → ℕ) → ℕ → CommandHeader → Session → Option (Bool × Session)
unfolding add_luns to_req reserve_data_segment serialize
handle_report_luns name fresh luns h s =
    let alloc = be32 h.scb 6 in
    let r = start_reply name fresh good (to_req h) s in
    let g = reserve_data_segment alloc r.gen in
    let cleared = overlay fresh 0 (put32 0 ++ put32 0) fresh in
    if accepts (byte h.scb 0 == 0xa0 && not (ltb alloc 16)) (to_req h)
    then if g.0
      then if luns == 0
        then some (false, advance_statsn s)
        else some (
          true,
          send_reply (record r { gen = g.1; area = add_luns alloc luns 0 cleared })
              (advance_statsn s),
        )
      else none
    else some (false, s)
