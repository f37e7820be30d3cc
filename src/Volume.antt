-- ===== src/Volume.antt =====
-- src/volume.cpp and include/volume.h: how a range of a logical volume falls on its physical volumes.
-- A file is given by a name. Opening files and the volumes' checks on them are not modelled.
pub mod Layout
use sstoraged.Common.{
  ℕ, ◌+◌, ◌-◌, ◌%◌, ◌^◌, Bool, true, false, ltb, leb, ◌==◌, if◌then◌else◌, List, [], ◌∷◌, ◌++◌,
  add64, sub64,
}
use sstoraged.Cache.{lba2offset}

pub record PhysicalVolume : Type 0 where
  pub path : ℕ
  pub start : ℕ
  pub count : ℕ

-- `getSector`, set by the constructor.
abbrev pub sector : PhysicalVolume → ℕ
sector v = lba2offset v.count

-- `getCoverage`
unfoldable pub get_coverage : PhysicalVolume → ℕ → ℕ → ℕ
get_coverage v offset length =
    if ltb (sector v) offset
    then 0
    else if ltb (add64 offset length) (sector v)
    then length
    else sector v - offset

-- `LowHandle`
pub record LowHandle : Type 0 where
  pub path : ℕ
  pub offset : ℕ
  pub length : ℕ

-- `addVolume` and `getTotalSize` of a VolumeArray.
pub record VolumeArray : Type 0 where
  pub volumes : List PhysicalVolume
  pub count : ℕ

abbrev pub add_volume : PhysicalVolume → VolumeArray → VolumeArray
add_volume v a = record { volumes = a.volumes ++ (v ∷ []); count = add64 a.count v.count }

-- `getLowHandles`; `cur` is converted to an unsigned number where getCoverage is called.
unfoldable pub get_low_handles : List PhysicalVolume → ℕ → ℕ → List LowHandle
get_low_handles [] cur remain = []
get_low_handles (v ∷ l) cur remain =
    let covered = get_coverage v cur remain in
    let handle : LowHandle = record {
      path = v.path;
      offset = add64 v.start cur;
      length = covered;
    } in
    let more = get_low_handles l 0 (sub64 remain covered) in
    let next = get_low_handles l (sub64 cur (sector v)) remain in
    if ltb 0 covered then if sub64 remain covered == 0 then handle ∷ [] else handle ∷ more else next
