-- ===== src/Tests/VolumeCases.antt =====
-- A range over the end of the first of two volumes, of 2 and of 3 blocks.
use sstoraged.Common.{◌≡◌, refl, List, [], ◌∷◌, arith}
use sstoraged.Volume.{PhysicalVolume, get_low_handles}
use sstoraged.Volume.Layout.{bytes, layout, get_low_handles-layout}

abbrev volumes : List PhysicalVolume
volumes = record { path = 1; start = 0; count = 2 } ∷ record { path = 2; start = 0; count = 3 } ∷ []

get_low_handles-layout_example : bytes (get_low_handles volumes 1020 8) ≡ layout volumes 1020 8
get_low_handles-layout_example =
    get_low_handles-layout volumes 1020 8 (refl, (refl, tt)) (omega arith) (omega arith)
      (omega arith)
