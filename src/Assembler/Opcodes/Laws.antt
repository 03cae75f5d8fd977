-- ===== src/Assembler/Opcodes/Laws.antt =====
-- What the lookup of src/opcode.c finds.
use mikode.Prelude.{ℕ, zero, suc, ◌≡◌, refl, arith, Bool, true, some}
use mikode.Prelude.{List, [], ◌∷◌, map, all}
use mikode.Assembler.Opcodes.{Row, ins, tolower, same_name, find_row, getopcode}

tolower_twice : (c : ℕ) → tolower (tolower c) ≡ tolower c
unfolding tolower
tolower_twice c = ground arith

same_name-tolower : (n : ℕ) (a b : List ℕ) → same_name n (map tolower a) b ≡ same_name n a b
unfolding same_name
same_name-tolower zero a b = refl
same_name-tolower (suc n) [] [] = refl
same_name-tolower (suc n) [] (y ∷ b) = refl
same_name-tolower (suc n) (x ∷ a) [] = refl
same_name-tolower (suc n) (x ∷ a) (y ∷ b) = rw (tolower_twice x, same_name-tolower n a b)

find_row-tolower : (b : List ℕ) (rows : List Row) → find_row (map tolower b) rows ≡ find_row b rows
unfolding find_row
find_row-tolower b [] = refl
find_row-tolower b (r ∷ rest) = rw (same_name-tolower 20 b r.name, find_row-tolower b rest)

-- The lookup ignores the case of the mnemonic.
pub getopcode-tolower : (b : List ℕ) → getopcode (map tolower b) ≡ getopcode b
unfolding getopcode
getopcode-tolower b = find_row-tolower b ins

found_in :
    (p : Row → Bool) (b : List ℕ) (rows : List Row) (r : Row)
    → all p rows ≡ true
    → find_row b rows ≡ some r
    → p r ≡ true
unfolding find_row
found_in p b [] r h found = cc
found_in p b (row ∷ rest) r h found = ground (arith, found_in p b rest r)

-- What a test finds of every row of the table holds of the row that the lookup returns.
pub getopcode-all :
    (p : Row → Bool) (b : List ℕ) (r : Row) → all p ins ≡ true → getopcode b ≡ some r → p r ≡ true
unfolding getopcode
getopcode-all p b r h found = found_in p b ins r h found
