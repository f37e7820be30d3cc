-- ===== src/Scsi/Capacity.antt =====
-- include/scsi/readcapacity.h, readcapacity16.h and their handlers: READ CAPACITY(10) and (16). The PMI
-- bit is in byte 8 of the CDB of the one; in the struct of the other it is in byte 18, which lies two
-- bytes behind the header.
use sstoraged.Common.{
  ℕ, ◌/◌, ◌%◌, ◌^◌, Bool, false, not, ◌&&◌, ltb, ◌==◌, if◌then◌else◌, Option, none, some, List, [],
  ◌∷◌, ◌++◌, sub64,
}
use sstoraged.Session.{Session, advance_statsn}
use sstoraged.Scsi.{
  CommandHeader, byte, be32, be64, flag, to_req, accepts, unset, good, check_condition,
  reply_struct,
}
use sstoraged.Scsi.Sense.{fixed_sense}

-- htonl and htobe64.
abbrev pub put32 : ℕ → List (Option ℕ)
put32 n =
    some (n / 2 ^ 24 % 256)
    ∷ (some (n / 2 ^ 16 % 256) ∷ (some (n / 2 ^ 8 % 256) ∷ (some (n % 256) ∷ [])))

abbrev pub put64 : ℕ → List (Option ℕ)
put64 n = put32 (n / 2 ^ 32) ++ put32 n

-- The last LBA that READ CAPACITY(10) tells, as a uint32_t.
abbrev pub last_lba : ℕ → ℕ
last_lba total = if ltb 0xFFFFFFFF total then 0xFFFFFFFF else sub64 total 1 % 2 ^ 32

-- `ReadCapacityHeader` and `ReadCapacity16Header`; LBAUNIT is 512.
abbrev pub capacity_data : ℕ → List (Option ℕ)
capacity_data total = put32 (last_lba total) ++ put32 512

abbrev pub capacity16_data : ℕ → List (Option ℕ)
capacity16_data total = put64 (sub64 total 1) ++ (put32 512 ++ unset 20 [])

-- What both handlers do with a valid request.
abbrev pub tell :
    ℕ
    → (ℕ → ℕ)
    → (ℕ → ℕ)
    → (ℕ → List (Option ℕ))
    → ℕ
    → CommandHeader
    → Session
    → Option (Bool × Session)
tell name fresh stack told lba h s =
    if lba == 0
    then elim (s.lun_size (to_req h).lun) [
      | none ↦ some (false, advance_statsn s)
      | some total ↦ reply_struct name fresh stack good (told total) h (to_req h) s
    ]
    else reply_struct name fresh stack check_condition fixed_sense h (to_req h) s

-- `ReadCapacityHandler::handle`
unfoldable pub handle_read_capacity :
    ℕ → (ℕ → ℕ) → (ℕ → ℕ) → CommandHeader → Session → Option (Bool × Session)
unfolding reply_struct to_req
handle_read_capacity name fresh stack h s =
    if accepts (byte h.scb 0 == 0x25 && not (flag (byte h.scb 8) 0)) (to_req h)
    then tell name fresh stack capacity_data (be32 h.scb 2) h s
    else some (false, s)

-- `ReadCapacity16Handler::handle`. `valid` only logs a wrong service action.
unfoldable pub handle_read_capacity16 :
    ℕ → (ℕ → ℕ) → (ℕ → ℕ) → CommandHeader → Session → Option (Bool × Session)
unfolding reply_struct to_req
handle_read_capacity16 name fresh stack h s =
    if accepts (byte h.scb 0 == 0x9e && not (flag (byte h.scb 18) 0)) (to_req h)
    then tell name fresh stack capacity16_data (be64 h.scb 2) h s
    else some (false, s)
