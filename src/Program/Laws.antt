-- ===== src/Program/Laws.antt =====
-- The program on a source file and then on the object file that it has made of it.
use mikode.Prelude.{
  ℕ, ◌≡◌, ◌≤◌, ◌<◌, refl, ap, arith, Bool, true, false, List, [], ◌∷◌, some, none, map, length,
  codes, ltb,
}
use mikode.Machine.Memory.{word_at}
use mikode.Image.{File, write_asm, load, returns_0}
use mikode.Image.Load.{Fetches}
use mikode.Assembler.Token.{Buffer}
use mikode.Assembler.Expression.{Evaluator}
use mikode.Assembler.Line.{Line, Rows, object_line}
use mikode.Assembler.Compile.{compile_lines}
use mikode.Program.{Disk, put_file}
use mikode.Program.Text.{get_lines}
use mikode.Program.Names.{
  source, length-append, first-short, is_asm-source, object_name-source, strcmp-same,
}
use mikode.Program.Compile.{
  compile_file, compile_text, after_passes, after_open, write_files, list_name, returned_0, fatal,
}
use mikode.Program.Cleanup.Laws.{accepted-frees_set}
use mikode.Program.Run.{Host, run, run_main, start}
use mikode.Program.Main.{
  Choice, Ended, r, choose, main, main_chosen, main_file, after_run, after_compile,
}

module _ (te : Evaluator) (junk : List ℕ) (rows : ℕ → ℕ → ℕ) (line_buf : Buffer)
    (null_text : ℕ → Bool) (h : Host) (fuel : ℕ) where
  -- The program, with its outside filled in.
  abbrev pub mikode_on : List Choice → List ℕ → Disk → Ended
  mikode_on options arg = main te junk rows line_buf null_text h fuel options (arg ∷ [])

  -- An object file that `load` takes in is run.
  runs :
      (name : List ℕ) (disk : Disk) (f : File) (memory : ℕ → ℕ)
      → length name ≤ 255
      → disk.file name ≡ some f
      → load h.fresh f ≡ returns_0 memory
      → mikode_on (r ∷ []) name disk ≡ after_run disk (some (run h fuel memory 0))
  unfolding main choose main_chosen main_file run_main
  runs name disk f memory short there taken =
      let low : ltb 255 (length name) ≡ false = ground arith in rw (low, there, taken) refl

  -- What both runs of the program come to: the first ends with 0, and the second runs a memory
  -- that has the word at the address.
  pub record AssembledAndRun (stem : List ℕ) (disk : Disk) (a v : ℕ) : Type 0 where
    pub after : Disk
    pub memory : ℕ → ℕ
    pub assembled :
        mikode_on [] (source stem) disk
        ≡ record { status = some 0; shown = []; disk = after; emulated = none }
    pub emulated : mikode_on (r ∷ []) stem after ≡ after_run after (some (run h fuel memory 0))
    pub fetched : word_at (start memory) a ≡ v

  module _ (stem : List ℕ) (disk : Disk) (f : File) (short : length stem < 23)
      (there : disk.file (source stem) ≡ some f)
      (list_ok : disk.writable (list_name (source stem)) ≡ true)
      (object_ok : disk.writable stem ≡ true) where
    long_enough : ltb 255 (length (source stem)) ≡ false
    long_enough = let sum = length-append stem (codes ".asm") in ground (arith, sum)

    module _ {ls : List Line} {d : Rows}
        (accepted : compile_lines te junk rows (get_lines f line_buf) ≡ some (ls, d)) where
      abbrev after : Disk
      after =
          write_files te junk rows line_buf null_text (source stem) (get_lines f line_buf) (ls, d)
            disk

      compiled : compile_file te junk rows line_buf null_text (source stem) disk ≡ returned_0 after
      unfolding compile_file after_open compile_text after_passes fatal
      compiled =
          let sets = accepted-frees_set te junk rows line_buf null_text f accepted in
          rw (is_asm-source stem, there, sets)
            (ap
              (λ t. returned_0 (
                after_passes te junk rows line_buf null_text (source stem) (get_lines f line_buf)
                  disk t))
              accepted)

      object : after.file stem ≡ some (write_asm d.rows (map object_line ls))
      unfolding write_files put_file
      object =
          let sum = length-append stem (codes ".asm") in
          let whole = first-short 32 (source stem) (omega (arith, sum)) in
          let named = object_name-source stem (omega arith) in
          rw (list_ok, named, whole, is_asm-source stem, object_ok, strcmp-same stem) refl

      ended_well :
          mikode_on [] (source stem) disk
          ≡ record { status = some 0; shown = []; disk = after; emulated = none }
      unfolding main choose main_chosen main_file after_compile
      ended_well = rw (long_enough, compiled) refl

      pub assembled-AndRun :
          (a v : ℕ)
          → Fetches (load h.fresh (write_asm d.rows (map object_line ls))) a v
          → AssembledAndRun stem disk a v
      assembled-AndRun a v fetches = record {
        after = after;
        memory = fetches.memory;
        assembled = ended_well;
        emulated = runs stem after _ fetches.memory (omega arith) object fetches.ended;
        fetched = fetches.fetched (start fetches.memory) refl;
      }
