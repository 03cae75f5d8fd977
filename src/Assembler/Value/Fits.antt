-- ===== src/Assembler/Value/Fits.antt =====
-- What `get_val` of src/misc.c gives fits in 16 bits.
use mikode.Prelude.{ℕ, ◌<◌, arith, List}
use mikode.Prelude.Holds.{Holds, fails, gives, if_Holds, any-Holds}
use mikode.Assembler.Symbols.{Tables, Value, number, text}
use mikode.Assembler.Value.{ValType, get_val, from_equate}

-- A value is an `int16_t`.
from_equate-fits : (v : Value) → Holds (λ a. a < 65536) (from_equate v)
from_equate-fits (number n) = gives (omega arith)
from_equate-fits (text s) = fails

pub get_val-fits :
    (t : Tables) (s : List ℕ) (type : ValType) → Holds (λ a. a < 65536) (get_val t s type)
unfolding get_val
get_val-fits t s type =
    if_Holds _ (any-Holds _ from_equate-fits)
      (any-Holds _ λ r. any-Holds _ λ u. gives (omega arith))
