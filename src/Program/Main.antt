-- ===== src/Program/Main.antt =====
-- src/main.c. What `getopt_long` makes of the arguments is given: the options in order, and the
-- arguments from `optind` on.
use mikode.Prelude.{
  ℕ, Bool, true, false, List, [], ◌∷◌, Option, some, none, if◌then◌else◌, ◌==◌, ltb, length,
}
use mikode.Assembler.Token.{Buffer}
use mikode.Assembler.Expression.{Evaluator}
use mikode.Gpio.{atoi}
use mikode.Program.{Disk}
use mikode.Program.Compile.{Compiled, not_opened, returned_0, bad_free, compile_file}
use mikode.Program.Run.{Host, Ran, refused, unfinished, ran, run_main}

-- The results of `getopt_long`: 0 for --version, --help and --gpio, or a letter; `other` is any
-- other result.
pub data Choice : Type 0 where
  version help gpio_long r g other : Choice
  s : List ℕ → Choice

-- The variables that the options set.
pub record Settings : Type 0 where
  pub usage_flag : ℕ
  pub run : Bool
  pub sleep_v : ℕ

-- What `main` prints of itself.
pub data Shown : Type 0 where
  usage print_help print_version too_long : Shown

-- `exit` inside the loop, or what the options leave.
pub data Chosen : Type 0 where
  exits : ℕ → Shown → Chosen
  chosen : Settings → Chosen

-- The status of `exit (-1)`
abbrev pub minus_1 : ℕ
minus_1 = 255

-- `case 0`, with the flag that the option has set
abbrev long_option : ℕ → (Settings → Chosen) → Settings → Chosen
long_option flag rest o =
    if flag == 1
    then exits 0 print_version
    else if flag == 2
    then exits 0 print_help
    else rest (record o { usage_flag = flag })

unfoldable pub choose : List Choice → Settings → Chosen
choose [] o = chosen o
choose (version ∷ cs) o = long_option 1 (choose cs) o
choose (help ∷ cs) o = long_option 2 (choose cs) o
choose (gpio_long ∷ cs) o = long_option 3 (choose cs) o
choose (r ∷ cs) o = choose cs (record o { run = true })
choose (g ∷ cs) o = choose cs (record o { usage_flag = 3 })
choose (s arg ∷ cs) o = choose cs (record o { sleep_v = atoi arg })
choose (other ∷ cs) o = exits minus_1 usage

abbrev pub no_choice : Settings
no_choice = record { usage_flag = 0; run = false; sleep_v = 1000 }

-- How the program ends: its status, `none` while it runs and behind a `free` of a pointer that was
-- never set; what `main` prints; the files; and what was run.
pub record Ended : Type 0 where
  pub status : Option ℕ
  pub shown : List Shown
  pub disk : Disk
  pub emulated : Option Ran

abbrev ended : ℕ → List Shown → Disk → Ended
ended status shown disk = record {
  status = some status;
  shown = shown;
  disk = disk;
  emulated = none;
}

-- Behind `run_main` and behind `compile`.
unfoldable pub after_run : Disk → Option Ran → Ended
after_run disk none = ended minus_1 [] disk
after_run disk (some refused) = record (ended minus_1 [] disk) { emulated = some refused }
after_run disk (some unfinished) = record {
  status = none;
  shown = [];
  disk = disk;
  emulated = some unfinished;
}
after_run disk (some (ran e w x m)) = record (ended 0 [] disk) { emulated = some (ran e w x m) }

unfoldable pub after_compile : Compiled → Ended
after_compile (not_opened disk) = ended minus_1 [] disk
after_compile (returned_0 disk) = ended 0 [] disk
after_compile (bad_free disk) = record { status = none; shown = []; disk = disk; emulated = none }

module _ (te_interp : Evaluator) (junk : List ℕ) (rows : ℕ → ℕ → ℕ) (line_buf : Buffer)
    (null_text : ℕ → Bool) (h : Host) (fuel : ℕ) where
  -- From the end of the options on.
  unfoldable pub main_file : Settings → List (List ℕ) → Disk → Ended
  unfolding after_run after_compile run_main compile_file
  main_file o [] disk = ended minus_1 (usage ∷ []) disk
  main_file o (filename ∷ rest) disk =
      if ltb 255 (length filename)
      then ended minus_1 (too_long ∷ []) disk
      else if o.run
      then after_run disk (run_main h fuel filename o.usage_flag disk)
      else after_compile (compile_file te_interp junk rows line_buf null_text filename disk)

  unfoldable pub main_chosen : Chosen → List (List ℕ) → Disk → Ended
  unfolding main_file
  main_chosen (exits status shown) args disk = ended status (shown ∷ []) disk
  main_chosen (chosen o) args disk = main_file o args disk

  unfoldable pub main : List Choice → List (List ℕ) → Disk → Ended
  unfolding choose main_chosen
  main options args disk = main_chosen (choose options no_choice) args disk
