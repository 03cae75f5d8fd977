-- ===== src/Program/Listing.antt =====
-- `write_listing` of src/write.c.
use mikode.Prelude.{
  ℕ, zero, suc, ◌+◌, ◌-◌, ◌/◌, ◌%◌, List, [], ◌∷◌, ◌++◌, if◌then◌else◌, ltb, codes,
}
use mikode.Image
use mikode.Image.{has_data, has_code, has_extra}

abbrev pub hex_digit : ℕ → ℕ
hex_digit d = if ltb d 10 then b'0' + d else 87 + d

-- `%0<n>x` of a number with at most so many digits
unfoldable pub print_hex : ℕ → ℕ → List ℕ
print_hex zero n = []
print_hex (suc w) n = print_hex w (n / 16) ++ (hex_digit (n % 16) ∷ [])

-- The loop over `k`.
unfoldable pub list_bytes : ℕ → ℕ → (ℕ → ℕ) → List ℕ
unfolding print_hex
list_bytes zero k d = []
list_bytes (suc left) k d = print_hex 2 (d k) ++ (b' ' ∷ list_bytes left (k + 1) d)

-- One line, with its text.
unfoldable pub list_line : (ℕ → ℕ → ℕ) → Image.Line → List ℕ → List ℕ
unfolding list_bytes
list_line dp l text =
    codes "0x"
    ++ (print_hex 4 l.address
        ++ (b'\t'
            ∷ ((if has_data l then list_bytes l.size 0 (dp (l.dataidx - 1)) else [])
                ++ ((if has_code l then print_hex 4 l.opcode ++ codes "  " else codes "      ")
                    ++ ((if has_extra l.type
                          then print_hex 4 l.opextra ++ codes "  "
                          else codes "      ")
                        ++ (b'\t' ∷ text))))))

-- The loop over `j`.
unfoldable pub list_lines : (ℕ → ℕ → ℕ) → List Image.Line → List (List ℕ) → List ℕ
unfolding list_line
list_lines dp [] texts = []
list_lines dp (l ∷ ls) [] = []
list_lines dp (l ∷ ls) (text ∷ texts) = list_line dp l text ++ list_lines dp ls texts

unfoldable pub write_listing : (ℕ → ℕ → ℕ) → List Image.Line → List (List ℕ) → List ℕ → List ℕ
unfolding list_lines
write_listing dp ls texts name =
    codes "Listing for " ++ (name ++ (codes ".\n\n" ++ list_lines dp ls texts))
