-- ===== src/Host/Options.antt =====
-- `chipSelectionParser` of software/options.hxx: `int:N` and `ext:N` on the command line.
pub mod Actions
use spiflash_programmer.Prelude.{
  Bool-cases, inl, inr, ℕ, ◌<◌, ◌≤◌, ◌≡◌, ◌⊎◌, Bool, true, false, not, ◌&&◌, List, ◌∷◌, Option,
  none, some, length, drop, byte_at, ltb, ◌==◌, if◌then◌else◌, arith, u8,
}
use spiflash_programmer.Protocol.{FlashBus, internal, external}

pub record Chip : Type 0 where
  pub bus : FlashBus
  pub index : ℕ

-- `value.substr(0, 3)` against a text of three characters.
abbrev pub starts_with : List ℕ → ℕ → ℕ → ℕ → Bool
starts_with value a b c = byte_at value 0 == a && byte_at value 1 == b && byte_at value 2 == c

-- `isDec` and `fromDec` are those of the library's `toInt_t<uint64_t>`.
module _ (is_dec : List ℕ → Bool) (from_dec : List ℕ → ℕ) where
  unfoldable pub chip_selection_parser : List ℕ → Option Chip
  chip_selection_parser value =
      if ltb (length value) 5
      then none
      else if not (starts_with value b'i' b'n' b't') && not (starts_with value b'e' b'x' b't')
      then none
      else if not (byte_at value 3 == b':')
      then none
      else if not (is_dec (drop 4 value))
      then none
      else if ltb 255 (from_dec (drop 4 value))
      then none
      else some (record {
        bus = if byte_at value 0 == b'i' then internal else external;
        index = u8 (from_dec (drop 4 value));
      })

  -- The text of a bus on the command line.
  abbrev bus_text : FlashBus → List ℕ → List ℕ
  bus_text internal digits = b'i' ∷ b'n' ∷ b't' ∷ b':' ∷ digits
  bus_text _ digits = b'e' ∷ b'x' ∷ b't' ∷ b':' ∷ digits

  abbrev bus_of : Bool → FlashBus
  bus_of true = external
  bus_of false = internal

  -- `int:` or `ext:` and a decimal number, which is not empty, are read as that bus with that
  -- number if the number is below 256, and are refused otherwise.
  pub chip_selection_parser_reads :
      (is_external : Bool) (digits : List ℕ)
      → 0 < length digits
      → is_dec digits ≡ true
      → ((from_dec digits < 256)
          × (chip_selection_parser (bus_text (bus_of is_external) digits)
              ≡ some (record { bus = bus_of is_external; index = from_dec digits })))
        ⊎ ((256 ≤ from_dec digits)
            × (chip_selection_parser (bus_text (bus_of is_external) digits) ≡ none))
  unfolding chip_selection_parser
  chip_selection_parser_reads true digits some_digits decimal =
      elim (Bool-cases (ltb 255 (from_dec digits))) [
        | inl big ↦ inr (ground arith, ground (arith, big))
        | inr fits ↦ inl (ground arith, ground (arith, fits))
      ]
  chip_selection_parser_reads false digits some_digits decimal =
      elim (Bool-cases (ltb 255 (from_dec digits))) [
        | inl big ↦ inr (ground arith, ground (arith, big))
        | inr fits ↦ inl (ground arith, ground (arith, fits))
      ]

  -- Every chip that is accepted has a number below 256, and the text had at least five characters.
  pub chip_selection_parser_bounds :
      (value : List ℕ) (chip : Chip)
      → chip_selection_parser value ≡ some chip
      → (chip.index < 256) × (chip.index ≡ from_dec (drop 4 value)) × (5 ≤ length value)
  unfolding chip_selection_parser
  chip_selection_parser_bounds value chip e = ground arith
