-- ===== src/Firmware/Descriptors/WellFormed.antt =====
-- The configuration of firmware/usb/descriptors.cxx against the rules of USB 2.0, section 9.6, which a
-- host goes by that walks through its parts.
use Prim.Native.String.{String}
use spiflash_programmer.Prelude.{
  ℕ, suc, ◌+◌, ◌-◌, ◌≡◌, refl, Bool, true, false, ◌&&◌, List, [], ◌∷◌, Option, some, ltb, ◌==◌,
  arith, get_elem?,
}
use spiflash_programmer.Firmware.Descriptors.{
  Sizes, Part, config_part, interface_part, endpoint_part, functional_part, MultiPart,
  config_sections, flash_interface, string_descriptors,
}

-- `bLength` of a part.
abbrev part_length : Part → ℕ
part_length (config_part d) = d.length
part_length (interface_part d) = d.length
part_length (endpoint_part d) = d.length
part_length (functional_part d) = d.length

abbrev pub total_size : List MultiPart → ℕ
total_size [] = 0
total_size ((size, part) ∷ parts) = size + total_size parts

abbrev pub SizesAgree : List MultiPart → Type 0
SizesAgree [] = Unit
SizesAgree ((size, part) ∷ parts) = (size ≡ part_length part) × SizesAgree parts

-- The interfaces come in the order of their numbers, each before as many endpoints as it names. `next`
-- is the next interface's number, and `owed` how many endpoints are still to come.
abbrev pub is_walk : (next owed : ℕ) → List MultiPart → ℕ → Bool
is_walk next owed [] interfaces = owed == 0 && next == interfaces
is_walk next owed ((size, config_part d) ∷ parts) interfaces = false
is_walk next owed ((size, interface_part d) ∷ parts) interfaces =
    owed == 0 && d.number == next && is_walk (next + 1) d.endpoints parts interfaces
is_walk next owed ((size, endpoint_part d) ∷ parts) interfaces =
    ltb 0 owed && is_walk next (owed - 1) parts interfaces
is_walk next owed ((size, functional_part d) ∷ parts) interfaces =
    owed == 0 && is_walk next owed parts interfaces

-- A configuration's descriptor, and then its interfaces.
abbrev pub IsConfiguration : List MultiPart → Type 0
IsConfiguration ((size, config_part d) ∷ parts) =
    (d.total_length ≡ size + total_size parts)
    × SizesAgree ((size, config_part d) ∷ parts)
    × (is_walk 0 0 parts d.interfaces ≡ true)
IsConfiguration _ = ⊥

-- The configuration's total length is that of its parts, each part is as long as it says, and the
-- interfaces are numbered from 0 on, as many as announced, with their endpoints after each of them.
pub config_sections-IsConfiguration : (sizes : Sizes) → IsConfiguration (config_sections sizes)
unfolding config_sections
config_sections-IsConfiguration sizes =
    (omega arith, (refl, (refl, (refl, (refl, (refl, (refl, tt)))))), refl)

-- The characters of a text.
abbrev characters : String → ℕ
characters String.[] = 0
characters (String.◌∷◌ c s) = suc (characters s)

abbrev counts_agree : List (String × ℕ) → Bool
counts_agree [] = true
counts_agree ((text, count) ∷ strings) = characters text == count && counts_agree strings

-- Each string is sent whole.
strings_whole : counts_agree string_descriptors ≡ true
unfolding string_descriptors
strings_whole = refl

-- String index 0 is the list of languages.
abbrev string_at : ℕ → Option (String × ℕ)
string_at index = get_elem? string_descriptors (index - 1)

flash_string :
    (sizes : Sizes) → string_at (flash_interface sizes).string ≡ some ("Flash access interface", 22)
unfolding string_descriptors flash_interface
flash_string sizes = refl
