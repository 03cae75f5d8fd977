-- ===== src/Program/Status.antt =====
-- The status with which the program ends.
use mikode.Prelude.{
  ℕ, ◌≡◌, refl, sym, ap, ◌∙◌, Bool, true, false, not, ◌||◌, List, [], ◌∷◌, Option, some, none,
  length, if◌then◌else◌, ltb, Bool-cases, inl, inr,
}
use mikode.Image.{File}
use mikode.Assembler.Token.{Buffer}
use mikode.Assembler.Expression.{Evaluator}
use mikode.Program.{Disk}
use mikode.Program.Cleanup.{frees_set}
use mikode.Program.Compile.{compile_file, compile_text, after_open, fatal, is_asm}
use mikode.Program.Run.{Host, Ran, refused, unfinished, ran, run_main}
use mikode.Program.Main.{
  Choice, version, help, gpio_long, r, g, other, s, Settings, Chosen, exits, chosen, Ended, choose,
  no_choice, main, main_chosen, main_file, after_run, after_compile,
}

-- The status of the emulator, by what was run.
abbrev pub ran_status : Option Ran → Option ℕ
ran_status none = some 255
ran_status (some refused) = some 255
ran_status (some unfinished) = none
ran_status (some (ran e w x m)) = some 0

-- The status of the first option that ends the program, and which options there are.
abbrev pub first_stop : List Choice → Option ℕ
first_stop [] = none
first_stop (version ∷ cs) = some 0
first_stop (help ∷ cs) = some 0
first_stop (other ∷ cs) = some 255
first_stop (gpio_long ∷ cs) = first_stop cs
first_stop (r ∷ cs) = first_stop cs
first_stop (g ∷ cs) = first_stop cs
first_stop (s arg ∷ cs) = first_stop cs

abbrev pub is_run : Choice → Bool
is_run r = true
is_run c = false

abbrev pub is_gpio : Choice → Bool
is_gpio gpio_long = true
is_gpio g = true
is_gpio c = false

abbrev pub any_of : (Choice → Bool) → List Choice → Bool
any_of p [] = false
any_of p (c ∷ cs) = p c || any_of p cs

pub data Verdict : Type 0 where
  stops : ℕ → Verdict
  goes : Bool → ℕ → Verdict

abbrev verdict_of : Chosen → Verdict
verdict_of (exits status shown) = stops status
verdict_of (chosen o) = goes o.run o.usage_flag

abbrev pub verdict : Option ℕ → Bool → ℕ → Verdict
verdict (some status) run flag = stops status
verdict none run flag = goes run flag

or_false : (b : Bool) → (b || false) ≡ b
or_false true = refl
or_false false = refl

or_true : (b : Bool) → (b || true) ≡ true
or_true true = refl
or_true false = refl

same_flag : (b : Bool) (flag : ℕ) → (if b then flag else flag) ≡ flag
same_flag true flag = refl
same_flag false flag = refl

three :
    (cs : List Choice) (run : Bool)
    → verdict (first_stop cs) (run || any_of is_run cs) (if any_of is_gpio cs then 3 else 3)
      ≡ verdict (first_stop cs) (run || any_of is_run cs) 3
three cs run =
    ap (verdict (first_stop cs) (run || any_of is_run cs)) (same_flag (any_of is_gpio cs) 3)

if_status :
    (b : Bool) (x y : Ended) {p q : Option ℕ}
    → x.status ≡ p
    → y.status ≡ q
    → (if b then x else y).status ≡ (if b then p else q)
if_status true x y h k = h
if_status false x y h k = k

choose-verdict :
    (cs : List Choice) (o : Settings)
    → verdict_of (choose cs o)
      ≡ verdict
          (first_stop cs)
          (o.run || any_of is_run cs)
          (if any_of is_gpio cs then 3 else o.usage_flag)
unfolding choose
choose-verdict [] o = ap (λ b. goes b o.usage_flag) (sym (or_false o.run))
choose-verdict (version ∷ cs) o = refl
choose-verdict (help ∷ cs) o = refl
choose-verdict (other ∷ cs) o = refl
choose-verdict (gpio_long ∷ cs) o = choose-verdict cs (record o { usage_flag = 3 }) ∙ three cs o.run
choose-verdict (r ∷ cs) o =
    choose-verdict cs (record o { run = true })
    ∙ ap (λ b. verdict (first_stop cs) b (if any_of is_gpio cs then 3 else o.usage_flag))
        (sym (or_true o.run))
choose-verdict (g ∷ cs) o = choose-verdict cs (record o { usage_flag = 3 }) ∙ three cs o.run
choose-verdict (s arg ∷ cs) o = choose-verdict cs _

module _ (te : Evaluator) (junk : List ℕ) (rows : ℕ → ℕ → ℕ) (line_buf : Buffer)
    (null_text : ℕ → Bool) (h : Host) (fuel : ℕ) where
  -- The status of the assembler, by the source that it finds.
  abbrev pub compiled_status : Option File → Option ℕ
  compiled_status none = some 255
  compiled_status (some f) = if frees_set te junk rows line_buf null_text f then some 0 else none

  -- The status, from the options and the first file name on.
  abbrev pub file_status : Bool → ℕ → List (List ℕ) → Disk → Option ℕ
  file_status run flag [] disk = some 255
  file_status run flag (name ∷ rest) disk =
      if ltb 255 (length name)
      then some 255
      else if run
      then ran_status (run_main h fuel name flag disk)
      else if not (is_asm name)
      then some 255
      else compiled_status (disk.file name)

  abbrev pub verdict_status : Verdict → List (List ℕ) → Disk → Option ℕ
  verdict_status (stops status) args disk = some status
  verdict_status (goes run flag) args disk = file_status run flag args disk

  -- What the command line says.
  abbrev pub status_of : List Choice → List (List ℕ) → Disk → Option ℕ
  status_of options args disk =
      verdict_status
        (verdict (first_stop options) (any_of is_run options)
          (if any_of is_gpio options then 3 else 0))
        args disk

  after_run-status : (disk : Disk) (q : Option Ran) → (after_run disk q).status ≡ ran_status q
  unfolding after_run
  after_run-status disk none = refl
  after_run-status disk (some refused) = refl
  after_run-status disk (some unfinished) = refl
  after_run-status disk (some (ran e w x m)) = refl

  after_open-status :
      (name : List ℕ) (disk : Disk) (q : Option File)
      → (after_compile (after_open te junk rows line_buf null_text name disk q)).status
        ≡ compiled_status q
  unfolding after_open after_compile compile_text fatal
  after_open-status name disk none = refl
  after_open-status name disk (some f) =
      elim (Bool-cases (frees_set te junk rows line_buf null_text f)) [
        | inl sets ↦ rw sets refl
        | inr unset ↦ rw unset refl
      ]

  compile_file-status :
      (name : List ℕ) (disk : Disk)
      → (after_compile (compile_file te junk rows line_buf null_text name disk)).status
        ≡ (if not (is_asm name) then some 255 else compiled_status (disk.file name))
  unfolding compile_file after_compile
  compile_file-status name disk = elim (Bool-cases (is_asm name)) [
    | inl asm ↦ rw asm (after_open-status name disk (disk.file name))
    | inr plain ↦ rw plain refl
  ]

  main_file-status :
      (o : Settings) (args : List (List ℕ)) (disk : Disk)
      → (main_file te junk rows line_buf null_text h fuel o args disk).status
        ≡ file_status o.run o.usage_flag args disk
  unfolding main_file
  main_file-status o [] disk = refl
  main_file-status o (name ∷ rest) disk = if_status (ltb 255 (length name)) _ _ refl (
      if_status o.run _ _ (after_run-status disk (run_main h fuel name o.usage_flag disk))
        (compile_file-status name disk))

  main_chosen-status :
      (c : Chosen) (args : List (List ℕ)) (disk : Disk)
      → (main_chosen te junk rows line_buf null_text h fuel c args disk).status
        ≡ verdict_status (verdict_of c) args disk
  unfolding main_chosen
  main_chosen-status (exits status shown) args disk = refl
  main_chosen-status (chosen o) args disk = main_file-status o args disk

  -- The status is that of the first option that ends the program, and without such an option that
  -- of the first file name: 255 if there is none or it has more than 255 characters; what the
  -- emulator gives, if --run is among the options, with the pins if --gpio is; and for the assembler
  -- 255 exactly if the name does not end in .asm or cannot be read. Else it is 0, also for a text that
  -- is refused, unless this was so early that a pointer is freed that was never set.
  pub main-status :
      (options : List Choice) (args : List (List ℕ)) (disk : Disk)
      → (main te junk rows line_buf null_text h fuel options args disk).status
        ≡ status_of options args disk
  unfolding main
  main-status options args disk =
      main_chosen-status (choose options no_choice) args disk
      ∙ ap (λ v. verdict_status v args disk) (choose-verdict options no_choice)
