-- ===== src/SizeType/Tables.antt =====
-- The code tables of checkdigit/iso6346_sizetype.py.
use checkdigit.Common.{ℕ, List, [], ◌∷◌, Option, none, some, ◌==◌, if◌then◌else◌, Str, codes}

-- `table.get(c)`, for a table whose keys are single characters
unfoldable pub lookup {ℓ} : {A : Type ℓ} → List (ℕ × A) → ℕ → Option A
lookup [] c = none
lookup ((k, v) ∷ table) c = if k == c then some v else lookup table c

abbrev pub length_table : List (ℕ × ℕ)
length_table =
    (b'1', 2991)
    ∷ (b'2', 6068)
    ∷ (b'3', 9125)
    ∷ (b'4', 12192)
    ∷ (b'B', 7315)
    ∷ (b'C', 7430)
    ∷ (b'G', 12500)
    ∷ (b'H', 13106)
    ∷ (b'L', 13716)
    ∷ (b'M', 14630)
    ∷ (b'N', 14935)
    ∷ (b'P', 16154)
    ∷ []

abbrev pub length_labels : List (ℕ × Str)
length_labels =
    (b'1', codes "10ft")
    ∷ (b'2', codes "20ft")
    ∷ (b'3', codes "30ft")
    ∷ (b'4', codes "40ft")
    ∷ (b'B', codes "24ft")
    ∷ (b'C', codes "24ft6in")
    ∷ (b'G', codes "41ft")
    ∷ (b'H', codes "43ft")
    ∷ (b'L', codes "45ft")
    ∷ (b'M', codes "48ft")
    ∷ (b'N', codes "49ft")
    ∷ (b'P', codes "53ft")
    ∷ []

abbrev pub height_table : List (ℕ × ℕ)
height_table =
    (b'0', 2438)
    ∷ (b'2', 2591)
    ∷ (b'4', 2743)
    ∷ (b'5', 2896)
    ∷ (b'6', 2926)
    ∷ (b'8', 1295)
    ∷ (b'9', 1219)
    ∷ []

abbrev pub height_labels : List (ℕ × Str)
height_labels =
    (b'0', codes "8ft")
    ∷ (b'2', codes "8ft6in")
    ∷ (b'4', codes "9ft")
    ∷ (b'5', codes "9ft6in (HC)")
    ∷ (b'6', codes ">9ft6in")
    ∷ (b'8', codes "4ft3in")
    ∷ (b'9', codes "<=4ft")
    ∷ []

abbrev pub height_letter_table : List (ℕ × ℕ)
height_letter_table =
    (b'C', 2591)
    ∷ (b'D', 2896)
    ∷ (b'E', 2591)
    ∷ (b'F', 2896)
    ∷ (b'L', 2591)
    ∷ (b'M', 2896)
    ∷ (b'N', 2896)
    ∷ (b'P', 2896)
    ∷ []

pub data Family : Type 0 where
  dry reefer open_top flat_rack tank bulk named undefined : Family

abbrev pub group_table : List (ℕ × Family)
group_table =
    (b'G', dry)
    ∷ (b'V', dry)
    ∷ (b'W', dry)
    ∷ (b'R', reefer)
    ∷ (b'H', reefer)
    ∷ (b'U', open_top)
    ∷ (b'P', flat_rack)
    ∷ (b'K', tank)
    ∷ (b'N', tank)
    ∷ (b'T', tank)
    ∷ (b'B', bulk)
    ∷ (b'S', named)
    ∷ (b'A', dry)
    ∷ []

abbrev pub type_labels : List (ℕ × Str)
type_labels =
    (b'G', codes "General purpose")
    ∷ (b'V', codes "Ventilated")
    ∷ (b'W', codes "Foldable GP")
    ∷ (b'R', codes "Refrigerated")
    ∷ (b'H', codes "Thermal/insulated")
    ∷ (b'U', codes "Open top")
    ∷ (b'P', codes "Platform / flat rack")
    ∷ (b'K', codes "Tank")
    ∷ (b'N', codes "Bulk (tank/hopper)")
    ∷ (b'B', codes "Dry bulk")
    ∷ (b'S', codes "Named cargo")
    ∷ (b'A', codes "Air/surface")
    ∷ (b'T', codes "Tank container")
    ∷ []
