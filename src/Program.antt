-- ===== src/Program.antt =====
-- The two commands of the program, from the files on: what the assembler makes of a source file
-- and what the emulator makes of an object file.
pub mod Text
pub mod Listing
pub mod Cleanup
pub mod Compile
pub mod Run
pub mod Main
pub mod Names
pub mod Laws
pub mod Assembled
pub mod Status
use mikode.Prelude.{ℕ, Bool, true, List, Option, some, none, if◌then◌else◌, length, ◌==◌, ◌&&◌}
use mikode.Prelude.Chars.{char_at, strcmp}
use mikode.Image.{File}

-- The files that can be read, by their names, and the names that can be written.
pub record Disk : Type 0 where
  pub file : List ℕ → Option File
  pub writable : List ℕ → Bool

unfoldable pub put_file : List ℕ → File → Disk → Disk
unfolding strcmp
put_file name f d = record d { file = λ other. if strcmp name other then some f else d.file other }

-- A text as a file.
abbrev pub file_of : List ℕ → File
file_of s = record { length = length s; byte = char_at s }
