-- ===== src/Scan/Examples.antt =====
-- Runs of the number scanner of libc/stdio/sscanf.c and libc/stdlib/atoi.c.
use hojicha.Format.{format_unsigned}
use hojicha.Scan.{scan_int, scan_digits, sscanf, sscanf_loop, digit_value}
use hojicha.Scan.ReadBack.{scan_int-format_unsigned, signed, Ends}
use hojicha.Common.{◌-◌, ◌%◌, ◌^◌, ◌≡◌, refl, true, false, some, [], ◌∷◌, ◌++◌, arith, inr}

-- "-17 0x1f" under "%d %i" is the two numbers -17 and 31.
two_numbers :
    sscanf
      (some (45 ∷ 49 ∷ 55 ∷ 32 ∷ 48 ∷ 120 ∷ 49 ∷ 102 ∷ []))
      (some (37 ∷ 100 ∷ 32 ∷ 37 ∷ 105 ∷ []))
    ≡ some (record { assigned = 2; stored = 4294967279 ∷ 31 ∷ []; errno = false })
unfolding sscanf sscanf_loop scan_int scan_digits digit_value
two_numbers = refl

-- An unknown conversion sets `errno`.
unknown_conversion :
    sscanf (some (49 ∷ [])) (some (37 ∷ 115 ∷ []))
    ≡ some (record { assigned = 0; stored = []; errno = true })
unfolding sscanf sscanf_loop
unknown_conversion = refl

hex_end : Ends 16 (32 ∷ [])
unfolding digit_value
hex_end = record { no_digit = refl; no_prefix = refl }

scan_int-format_unsigned_example :
    scan_int (signed true (format_unsigned 48879 16 ++ 32 ∷ [])) 16
    ≡ some ((2 ^ 32 - 48879) % 2 ^ 32, 32 ∷ [])
scan_int-format_unsigned_example =
    scan_int-format_unsigned 48879 16 true (32 ∷ []) (inr refl) (omega arith) hex_end
