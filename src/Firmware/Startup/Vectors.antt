-- ===== src/Firmware/Startup/Vectors.antt =====
-- Where the handlers stand in the vector table of firmware/startup.cxx.
use spiflash_programmer.Prelude.{
  ℕ, ◌+◌, ◌-◌, ◌≡◌, refl, Bool, true, ◌↔◌, Option, none, some, arith, get_elem?, ltb, ◌==◌, length,
  ltb→lt, Bool-cases, get_elem?-none, all_below, all_below_lem, inl, inr, ◌≤◌,
}
use spiflash_programmer.Firmware.Startup.{
  Handler, irq_reset, irq_nmi, irq_hard_fault, irq_empty_def, irq_usb, vector_table,
}

-- The vector that a handler but the empty one has.
abbrev pub vector_of : Handler → Option ℕ
vector_of irq_reset = some 0
vector_of irq_nmi = some 1
vector_of irq_hard_fault = some 2
vector_of irq_usb = some (44 + 16 - 1)
vector_of irq_empty_def = none

abbrev is_at : ℕ → Option ℕ → Bool
is_at n none = true
is_at n (some m) = n == m

abbrev fits : ℕ → Option (Option Handler) → Bool
fits n (some (some h)) = is_at n (vector_of h)
fits n (some none) = true
fits n none = true

-- Every entry of the table fits its place.
table_fits : all_below (λ n. fits n (get_elem? vector_table n)) 155 ≡ true
unfolding vector_table
table_fits = refl

table_holds :
    (h : Handler) (m : ℕ) → vector_of h ≡ some m → get_elem? vector_table m ≡ some (some h)
unfolding vector_table
table_holds irq_reset m e = let at : 0 ≡ m = ground arith in rw (← at) refl
table_holds irq_nmi m e = let at : 1 ≡ m = ground arith in rw (← at) refl
table_holds irq_hard_fault m e = let at : 2 ≡ m = ground arith in rw (← at) refl
table_holds irq_usb m e = let at : 59 ≡ m = ground arith in rw (← at) refl
table_holds irq_empty_def m e = cc

table_size : length vector_table ≡ 155
unfolding vector_table
table_size = refl

-- Each handler of the firmware's own stands in the table at its exception's vector, and nowhere
-- else: reset, NMI and hard fault as the first three, and USB as interrupt 44 after the 15 others.
pub vectors_in_place :
    (h : Handler) (m n : ℕ)
    → vector_of h ≡ some m
    → (get_elem? vector_table n ≡ some (some h)) ↔ (n ≡ m)
vectors_in_place h m n e = (
  λ found. elim (Bool-cases (ltb n 155)) [
    | inl inside ↦
        let fit =
          all_below_lem (λ k. fits k (get_elem? vector_table k)) 155 n table_fits
            (ltb→lt n 155 inside) in
        ground (arith, fit, found, e)
    | inr outside ↦
        let beyond : 155 ≤ n = ground (arith, outside) in
        let past = get_elem?-none vector_table n (omega (arith, table_size, beyond)) in cc
  ],
  λ same. rw same (table_holds h m e),
)
