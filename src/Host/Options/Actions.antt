-- ===== src/Host/Options/Actions.antt =====
-- The tables of software/options.hxx, which the command line library goes by, and the comparisons of
-- `main` in software/flashprog.cxx with the names in them. The descriptions are left out.
use Prim.Native.String.{String}
use text.Mathlib.Text.{◌==◌ as str_eq}
use spiflash_programmer.Prelude.{
  ◌≡◌, Bool, true, false, ◌&&◌, ◌||◌, List, [], ◌∷◌, Option, none, some, if◌then◌else◌, ◌⊎◌,
  Bool-cases, inr, inl, ◌++◌,
}
use spiflash_programmer.Host.Options.{Chip, Bool-cases, inr, inl}
use spiflash_programmer.Host.Program.{
  Operation, list_programmers, list_flash, erase_chip, read_chip, write_chip, verified_write_chip,
  sfdp_chip,
}

-- What an option takes, if it takes anything; `user_defined` is for `chipSelectionParser`.
pub data ValueType : Type 0 where
  nothing unsigned_int user_defined path : ValueType

pub record OptionSpec : Type 0 where
  pub name : String
  pub value : ValueType
  pub required : Bool

unfoldable pub device_option : OptionSpec
device_option = record { name = "--device"; value = unsigned_int; required = false }

unfoldable pub device_options : List OptionSpec
unfolding device_option
device_options =
    device_option ∷ record { name = "--chip"; value = user_defined; required = true } ∷ []

unfoldable pub file_options : List OptionSpec
unfolding device_options
file_options = device_options ++ record { name = "file"; value = path; required = true } ∷ []

unfoldable pub list_options : List OptionSpec
unfolding device_option
list_options = device_option ∷ []

unfoldable pub actions : List (String × List OptionSpec)
unfolding device_options file_options list_options
actions =
    ("listDevices", [])
    ∷ ("list", list_options)
    ∷ ("read", file_options)
    ∷ ("write", file_options)
    ∷ ("verifiedWrite", file_options)
    ∷ ("erase", device_options)
    ∷ ("sfdp", device_options)
    ∷ []

abbrev pub options_of : String → List (String × List OptionSpec) → Option (List OptionSpec)
options_of name [] = none
options_of name ((action, specs) ∷ table) =
    if str_eq name action then some specs else options_of name table

-- The comparisons of `main`, in order: what is run, with the chip of the arguments; `none` if they
-- all fail.
unfoldable pub dispatch : String → Chip → Option Operation
dispatch name chip =
    if str_eq name "listDevices"
    then some list_programmers
    else if str_eq name "erase"
    then some (erase_chip chip)
    else if str_eq name "read"
    then some (read_chip chip)
    else if str_eq name "write"
    then some (write_chip chip)
    else if str_eq name "verifiedWrite"
    then some (verified_write_chip chip)
    else if str_eq name "sfdp"
    then some (sfdp_chip chip)
    else none

-- The arguments that an operation of software/flashprog.cxx looks up, which must be there.
abbrev pub looked_up : Operation → List String
looked_up list_programmers = []
looked_up list_flash = []
looked_up (erase_chip chip) = "chip" ∷ []
looked_up (read_chip chip) = "chip" ∷ "file" ∷ []
looked_up (write_chip chip) = "chip" ∷ "file" ∷ []
looked_up (verified_write_chip chip) = "chip" ∷ "file" ∷ []
looked_up (sfdp_chip chip) = "chip" ∷ []

-- What the descriptions in the table say of an action: whether a chip's contents go to the file, or
-- the file's to the chip, and whether they are compared, or the chip is emptied, or nothing changes.
pub data Task : Type 0 where
  names_devices copies_chip copies_file copies_and_compares empties_chip shows_tables : Task

abbrev pub described_task : String → Option Task
described_task name =
    if str_eq name "listDevices"
    then some names_devices
    else if str_eq name "read"
    then some copies_chip
    else if str_eq name "write"
    then some copies_file
    else if str_eq name "verifiedWrite"
    then some copies_and_compares
    else if str_eq name "erase"
    then some empties_chip
    else if str_eq name "sfdp"
    then some shows_tables
    else none

-- What the operation does, to the chip that is given.
abbrev pub task_of : Operation → Chip → Task × Chip
task_of list_programmers chip = (names_devices, chip)
task_of list_flash chip = (names_devices, chip)
task_of (erase_chip given) chip = (empties_chip, given)
task_of (read_chip given) chip = (copies_chip, given)
task_of (write_chip given) chip = (copies_file, given)
task_of (verified_write_chip given) chip = (copies_and_compares, given)
task_of (sfdp_chip given) chip = (shows_tables, given)

module _ (key : String → String) where
  abbrev pub is_required : List OptionSpec → String → Bool
  is_required [] name = false
  is_required (spec ∷ specs) name =
      (spec.required && str_eq (key spec.name) name) || is_required specs name

  abbrev pub all_required : List OptionSpec → List String → Bool
  all_required specs [] = true
  all_required specs (name ∷ names) = is_required specs name && all_required specs names

  -- What the table's options for an action say of how it is dispatched.
  abbrev pub IsDispatched : String → Chip → Option (List OptionSpec) → Type 0
  IsDispatched name chip none = dispatch name chip ≡ none
  IsDispatched name chip (some specs) =
      (str_eq name "list" ≡ true)
      ⊎ ((op : Operation) × (dispatch name chip ≡ some op)
          × (described_task name ≡ some (task_of op chip).0)
          × ((task_of op chip).1 ≡ chip)
          × (all_required specs (looked_up op) ≡ true))

-- The command line library gives an option's argument under the option's name without the dashes.
module _ (key : String → String) (chip_key : key "--chip" ≡ "chip") (file_key : key "file" ≡ "file")
    (chip : Chip) where
  abbrev Known : String → Type 0
  Known name = IsDispatched key name chip (options_of name actions)
