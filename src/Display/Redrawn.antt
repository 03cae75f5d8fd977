-- ===== src/Display/Redrawn.antt =====
-- What the first loop of `run_io` in src/display.c draws.
use mikode.Prelude.{
  ℕ, zero, suc, ◌+◌, ◌/◌, ◌%◌, ◌≡◌, ◌≤◌, refl, sym, ap, ◌∙◌, arith, Bool, true, false, not, ◌&&◌,
  List, [], ◌∷◌, ◌++◌, ltb, ◌==◌, if◌then◌else◌,
}
use mikode.Machine.{update}
use mikode.Display.{Drawn, Window, scan, draw, scr_off}

-- The cells from `i` on whose byte is not the one that was there and is above 31, in order.
abbrev pub redrawn : ℕ → ℕ → (ℕ → ℕ) → (ℕ → ℕ) → ℕ → List Drawn
redrawn zero i screen old maxx = []
redrawn (suc left) i screen old maxx =
    let rest = redrawn left (i + 1) screen old maxx in
    if not (screen i == old i) && ltb 31 (screen i)
    then record { row = i / maxx; column = i % maxx; char = screen i } ∷ rest
    else rest

append_nil : (ds : List Drawn) → ds ++ [] ≡ ds
append_nil [] = refl
append_nil (d ∷ ds) = ap (◌∷◌ d) (append_nil ds)

append_one : (ds es : List Drawn) (d : Drawn) → (ds ++ (d ∷ [])) ++ es ≡ ds ++ (d ∷ es)
append_one [] es d = refl
append_one (c ∷ ds) es d = ap (◌∷◌ c) (append_one ds es d)

-- A cell before `i` makes no difference from `i` on.
redrawn-update :
    (left i j c : ℕ) (screen old : ℕ → ℕ) (maxx : ℕ)
    → j + 1 ≤ i
    → redrawn left i screen (update old j c) maxx ≡ redrawn left i screen old maxx
redrawn-update zero i j c screen old maxx h = refl
redrawn-update (suc left) i j c screen old maxx h =
    let apart : (j == i) ≡ false = ground arith in
    rw (apart, redrawn-update left (i + 1) j c screen old maxx (omega (arith, h))) refl

module _ (left i : ℕ) (screen : ℕ → ℕ) (w : Window) where
  abbrev here : Drawn
  here = record { row = i / w.maxx; column = i % w.maxx; char = screen i }

  abbrev rest : List Drawn
  rest = redrawn left (i + 1) screen w.old_win w.maxx

  printed :
      (p : Bool)
      → (if p then w.drawn ++ (here ∷ []) else w.drawn) ++ rest
        ≡ w.drawn ++ (if p then here ∷ rest else rest)
  printed true = append_one w.drawn rest here
  printed false = refl

  cell-drawn :
      (same : Bool)
      → let v = if same then w else draw i (screen i) w in
        v.drawn ++ redrawn left (i + 1) screen v.old_win v.maxx
        ≡ w.drawn ++ (if not same && ltb 31 (screen i) then here ∷ rest else rest)
  cell-drawn true = refl
  cell-drawn false =
      let later = redrawn-update left (i + 1) i (screen i) screen w.old_win w.maxx (omega arith) in
      ap (◌++◌ (draw i (screen i) w).drawn) later ∙ printed (ltb 31 (screen i))

pub scan-drawn :
    (left i : ℕ) (prog : ℕ → ℕ) (w : Window)
    → (scan left i prog w).drawn
      ≡ w.drawn ++ redrawn left i (λ j. prog (j + scr_off)) w.old_win w.maxx
unfolding scan
scan-drawn zero i prog w = sym (append_nil w.drawn)
scan-drawn (suc left) i prog w =
    let c = prog (i + scr_off) in
    scan-drawn left (i + 1) prog (if c == w.old_win i then w else draw i c w)
    ∙ cell-drawn left i (λ j. prog (j + scr_off)) w (c == w.old_win i)
