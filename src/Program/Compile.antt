-- ===== src/Program/Compile.antt =====
-- `compile` of src/parse.c on the files that it opens, with the names that src/write.c makes. Arrays
-- of 32 bytes hold the names; behind the end of a longer name nothing stands here.
use mikode.Prelude.{
  ℕ, zero, suc, ◌-◌, Bool, not, ◌&&◌, List, [], ◌∷◌, ◌++◌, Option, some, none, if◌then◌else◌, leb,
  length, map, codes,
}
use mikode.Prelude.Chars.{strcmp}
use mikode.Image.{File, write_asm}
use mikode.Assembler.Token.{Buffer, max_data}
use mikode.Assembler.Expression.{Evaluator}
use mikode.Assembler.Line.{Line, Rows, object_line}
use mikode.Assembler.Compile.{compile_lines}
use mikode.Gpio.{first}
use mikode.Program.{Disk, put_file, file_of}
use mikode.Program.Text.{get_lines, strndup}
use mikode.Program.Cleanup.{frees_set}
use mikode.Program.Listing.{write_listing}

abbrev pub drop : ℕ → List ℕ → List ℕ
drop zero s = s
drop (suc n) [] = []
drop (suc n) (c ∷ s) = drop n s

-- `strcmp (s + (strlen (s) - 4), ".asm") == 0`; a shorter text has no such end.
unfoldable pub is_asm : List ℕ → Bool
unfolding strcmp
is_asm s = leb 4 (length s) && strcmp (drop (length s - 4) s) (codes ".asm")

-- `lname` of `write_listing` and of `write_asm`
unfoldable pub list_name : List ℕ → List ℕ
list_name name = first 32 name ++ codes ".list"

unfoldable pub object_name : List ℕ → List ℕ
object_name name = let lname = first 32 name in first (length lname - 4) lname

-- `return -1`; `return 0`, behind `fatal`; or a `free` of a pointer that was never set, of which C
-- says nothing. Each has the disk as it is then.
pub data Compiled : Type 0 where
  not_opened returned_0 bad_free : Disk → Compiled

-- From `fatal` on.
unfoldable pub fatal : Bool → Disk → Compiled
fatal sets disk = if sets then returned_0 disk else bad_free disk

module _ (te_interp : Evaluator) (junk : List ℕ) (rows : ℕ → ℕ → ℕ) (line_buf : Buffer)
    (null_text : ℕ → Bool) where
  -- Behind the passes: the listing, and then the object file.
  unfoldable pub write_files : List ℕ → List Buffer → List Line × Rows → Disk → Disk
  unfolding write_listing put_file is_asm list_name object_name
  write_files name text (ls, d) disk =
      let out = map object_line ls in
      let listing = write_listing d.rows out (map (strndup max_data) text) name in
      let listed = put_file (list_name name) (file_of listing) disk in
      if not (disk.writable (list_name name))
      then disk
      else if is_asm (first 32 name) && disk.writable (object_name name)
      then put_file (object_name name) (write_asm d.rows out) listed
      else listed

  -- Behind the passes, up to `fatal`: a `none` has jumped there.
  unfoldable pub after_passes : List ℕ → List Buffer → Disk → Option (List Line × Rows) → Disk
  unfolding write_files
  after_passes name text disk none = disk
  after_passes name text disk (some r) = write_files name text r disk

  unfoldable pub compile_text : List ℕ → File → Disk → Compiled
  unfolding after_passes fatal frees_set
  compile_text name f disk =
      let text = get_lines f line_buf in
      let disk' = after_passes name text disk (compile_lines te_interp junk rows text) in
      fatal (frees_set te_interp junk rows line_buf null_text f) disk'

  unfoldable pub after_open : List ℕ → Disk → Option File → Compiled
  unfolding compile_text
  after_open name disk none = not_opened disk
  after_open name disk (some f) = compile_text name f disk

  unfoldable pub compile_file : List ℕ → Disk → Compiled
  unfolding after_open is_asm
  compile_file name disk =
      if not (is_asm name) then not_opened disk else after_open name disk (disk.file name)
