-- ===== src/Scsi/Inquiry.antt =====
-- include/scsi/inquiry.h and src/scsi/inquiry.cpp: INQUIRY. In the CDB, EVPD is bit 0 of byte 1, the
-- page code is byte 2 and the allocation length bytes 3 and 4.
use sstoraged.Common.{
  ℕ, Bool, false, not, ◌&&◌, ltb, ◌==◌, if◌then◌else◌, Option, none, some, List, [], ◌∷◌, ◌++◌,
  length,
}
use sstoraged.Session.{Session, advance_statsn}
use sstoraged.Scsi.{CommandHeader, byte, be16, flag, to_req, accepts, unset, good, reply_struct}

-- `InquiryDataHeader`, with its additional length set by `InquiryData`: "PRIV    ", "sStorage        "
-- and "0.1".
abbrev pub vendor_id : List (Option ℕ)
vendor_id =
    some 80 ∷ (some 82 ∷ (some 73 ∷ (some 86 ∷ (some 32 ∷ (some 32 ∷ (some 32 ∷ (some 32 ∷ [])))))))

abbrev pub product_id : List (Option ℕ)
product_id =
    some 115
    ∷ (some 83
        ∷ (some 116
            ∷ (some 111
                ∷ (some 114
                    ∷ (some 97
                        ∷ (some 103
                            ∷ (some 101
                                ∷ (some 32
                                    ∷ (some 32
                                        ∷ (some 32
                                            ∷ (some 32
                                                ∷ (some 32
                                                    ∷ (some 32
                                                        ∷ (some 32 ∷ (some 32 ∷ [])))))))))))))))

abbrev pub inquiry_data : List (Option ℕ)
inquiry_data =
    some 0
    ∷ (some 0
        ∷ (some 0x06
            ∷ (some 0x42
                ∷ (some 32
                    ∷ (some 0
                        ∷ (some 0
                            ∷ (some 0x02
                                ∷ (vendor_id
                                    ++ (product_id
                                        ++ (some 48
                                            ∷ (some 46 ∷ (some 49 ∷ (some 0 ∷ [])))))))))))))

-- `SupportedVPDPage`, `ProductSerialPage` and `DeviceIDPage`.
abbrev pub supported_vpd : List (Option ℕ)
supported_vpd =
    some 0 ∷ (some 0x00 ∷ (some 0 ∷ (some 3 ∷ (some 0x00 ∷ (some 0x80 ∷ (some 0x83 ∷ []))))))

abbrev pub product_serial : List (Option ℕ)
product_serial =
    some 0 ∷ (some 0x80 ∷ (some 0 ∷ (some 4 ∷ (some 48 ∷ (some 46 ∷ (some 49 ∷ (none ∷ [])))))))

abbrev pub device_id : List (Option ℕ)
device_id =
    some 0
    ∷ (some 0x83
        ∷ (some 0
            ∷ (some 0
                ∷ (some 0x01
                    ∷ (some 0x01
                        ∷ (some 0
                            ∷ (some 24 ∷ (some 73 ∷ (some 83 ∷ (some 80 ∷ unset 21 []))))))))))

-- The page that is asked for.
abbrev pub inquiry_page : Bool → ℕ → Option (List (Option ℕ))
inquiry_page evpd code =
    if not evpd
    then some inquiry_data
    else if code == 0x00
    then some supported_vpd
    else if code == 0x80
    then some product_serial
    else if code == 0x83
    then some device_id
    else none

-- `InquiryHandler::handle`. A failure after the reply was begun has advanced StatSN.
unfoldable pub handle_inquiry :
    ℕ → (ℕ → ℕ) → (ℕ → ℕ) → CommandHeader → Session → Option (Bool × Session)
unfolding reply_struct to_req
handle_inquiry name fresh stack h s =
    let alloc = be16 h.scb 3 in
    if accepts (byte h.scb 0 == 0x12 && not (ltb alloc 16)) (to_req h)
    then elim (inquiry_page (flag (byte h.scb 1) 0) (byte h.scb 2)) [
      | none ↦ some (false, advance_statsn s)
      | some fields ↦
          if ltb alloc (length fields)
          then some (false, advance_statsn s)
          else reply_struct name fresh stack good fields h (to_req h) s
    ]
    else some (false, s)
