-- ===== src/Assembler/Compile/Branches.antt =====
-- Where the branches lead that the two passes of `compile` in src/parse.c assemble.
use mathlib.Core.Path.{subst}
use mikode.Prelude.{
  ℕ, ◌+◌, ◌<◌, ◌≡◌, refl, sym, ap, ◌∙◌, arith, false, not, List, [], ◌∷◌, Option, some, none, ltb,
}
use mikode.Prelude.Holds.{
  Holds, gives, given, if_Holds, any-Holds, bind-Holds, known-Holds, weaken-Holds, both-Holds,
}
use mikode.Assembler.Token.{Buffer}
use mikode.Assembler.Symbols.{Tables}
use mikode.Assembler.Expression.{Evaluator, get_expr}
use mikode.Assembler.Opcodes.{OpType, Row, getopcode}
use mikode.Assembler.Encode.{enc_branch}
use mikode.Assembler.Line.{Line, Rows}
use mikode.Assembler.Patch.{Patch}
use mikode.Assembler.Patch.Branches.{branch-reaches}
use mikode.Assembler.Operand.Words.Parts.{guarded}
use mikode.Assembler.Operand.Sizes.{get_operand-Placed}
use mikode.Assembler.Operand.Branches.{
  is_branch, Branching, no_branch, to_label, get_operand-Branching,
}
use mikode.Assembler.Parse.{Parsed, parse}
use mikode.Assembler.Parse.Walk.{parse-Holds}
use mikode.Assembler.Compile.{
  Pass, place, assign_address, no_tables, put_labels, pass_1, pass_2, patched, label_text,
}
use mikode.Decode.{decode}
use mikode.Handlers.Fields.{field_offset}
use mikode.Handlers.Flow.{branch_to}

-- What holds of every line.
pub data Every (P : Line → Type 0) : List Line → Type 0 where
  no_line : Every P []
  and_line : {l : Line} {ls : List Line} → P l → Every P ls → Every P (l ∷ ls)

-- A line after the first pass.
record Ready (l : Line) : Type 0 where
  fits : l.address < 65536
  branching : Branching l

same_branch :
    (a : ℕ) (c : List ℕ) {l : Line}
    → Branching l
    → Branching (record l { address = a; comment = c })
same_branch a c (no_branch h) = no_branch h
same_branch a c (to_label m row f h o k) = to_label m row f h o k

parse-Ready :
    (te : Evaluator) (junk : List ℕ) (t : Tables) (d : Rows) (b : Buffer)
    → Holds (λ (r : Parsed). Ready r.line) (parse te junk t d b)
parse-Ready te junk t d b =
    parse-Holds te junk t d b Ready
      (λ label. record { fits = omega arith; branching = no_branch refl })
      (λ c. record { fits = omega arith; branching = no_branch refl })
      (λ a e h. record { fits = h; branching = no_branch refl })
      (λ label mnemonic row p found.
        weaken-Holds
          (both-Holds (get_operand-Placed te t b _ p d refl refl)
            (get_operand-Branching te t b _ p d mnemonic row found refl refl))
          λ r h.
            let at = (h.0).address_kept in record { fits = omega (arith, at); branching = h.1 })
      (λ c l h. record { fits = h.fits; branching = same_branch l.address c h.branching })

place-Ready : (prev : Option Line) (l : Line) → Ready l → Holds Ready (place prev l)
unfolding place assign_address
place-Ready none l h = gives h
place-Ready (some prev) l h =
    if_Holds _
      (known-Holds _ λ u e.
        let room = guarded (not (ltb 0xffff (prev.address + prev.size))) u e in
        gives
          (record { fits = ground (arith, room); branching = same_branch _ l.comment h.branching }))
      (gives h)

pass_1-Ready :
    (te : Evaluator) (junk : List ℕ) (prev : Option Line) (t : Tables) (d : Rows)
    (lines : List Buffer)
    → Holds (λ (q : Pass). Every Ready q.lines) (pass_1 te junk prev t d lines)
unfolding pass_1
pass_1-Ready te junk prev t d [] = gives no_line
pass_1-Ready te junk prev t d (b ∷ rest) = bind-Holds (parse-Ready te junk t d b) λ r ready.
    bind-Holds (place-Ready prev r.line ready) λ l placed.
      bind-Holds (pass_1-Ready te junk (some l) r.tables r.rows rest)
        λ q later. gives (and_line placed later)

-- A line has no branch, or the expression in its text has a value, and its opcode goes to the
-- handler of a BRANCH row and, from the line's address, leads to that value.
pub data Landed (te : Evaluator) (t : Tables) (l : Line) : Type 0 where
  no_landing : is_branch l.type ≡ false → Landed te t l
  lands :
      (mnemonic : List ℕ) (row : Row) (to q : ℕ)
      → getopcode mnemonic ≡ some row
      → row.type ≡ OpType.branch
      → get_expr te t (label_text l) 0 ≡ some (to, q)
      → decode l.opcode ≡ decode row.opcode
      → branch_to (field_offset l.opcode) l.address ≡ to
      → Landed te t l

pub get_expr-fits :
    (te : Evaluator) (t : Tables) (b : Buffer) (p : ℕ)
    → Holds (λ (r : ℕ × ℕ). r.0 < 65536) (get_expr te t b p)
unfolding get_expr
get_expr-fits te t b p = any-Holds _ λ r. any-Holds _ λ v. gives (omega arith)

module _ (te : Evaluator) (t : Tables) where
  patched-type : (l : Line) (k : Patch) → Holds (λ (l' : Line). l'.type ≡ l.type) (patched te t l k)
  unfolding patched
  patched-type l Patch.no_patch = gives refl
  patched-type l k = any-Holds _ λ r. any-Holds _ λ c. gives refl

  patched-branch :
      (l : Line) (mnemonic : List ℕ) (row : Row)
      → getopcode mnemonic ≡ some row
      → row.type ≡ OpType.branch
      → l.opcode ≡ enc_branch row.opcode 0
      → l.address < 65536
      → Holds (Landed te t) (patched te t l Patch.branch)
  unfolding patched
  patched-branch l mnemonic row found typed o fits =
      known-Holds (get_expr te t (label_text l) 0) λ r value. known-Holds _ λ c made.
        let to_fits = given (
          subst (Holds (λ (r : ℕ × ℕ). r.0 < 65536)) value (get_expr-fits te t (label_text l) 0)) in
        let both = branch-reaches mnemonic row l.address r.0 _ c found typed fits to_fits o made in
        gives (lands mnemonic row r.0 r.1 found typed value both.0 both.1)

  patched-Landed : (l : Line) → Ready l → Holds (Landed te t) (patched te t l l.patch)
  patched-Landed l h = elim h.branching [
    | no_branch e ↦
        weaken-Holds (patched-type l l.patch) λ l' same. no_landing (ap is_branch same ∙ e)
    | to_label m row found typed o k ↦
        subst (λ k. Holds (Landed te t) (patched te t l k)) (sym k)
          (patched-branch l m row found typed o h.fits)
  ]

  pass_2-Landed : {ls : List Line} → Every Ready ls → Holds (Every (Landed te t)) (pass_2 te t ls)
  unfolding pass_2
  pass_2-Landed no_line = gives no_line
  pass_2-Landed (and_line {l} h later) =
      bind-Holds (patched-Landed l h) λ l' landed.
        bind-Holds (pass_2-Landed later) λ rest landed'. gives (and_line landed landed')

-- Every branch that the two passes assemble leads to the value of its text, with the tables that
-- the first pass leaves and the labels of all lines.
pub passes-Landed :
    (te : Evaluator) (junk : List ℕ) (d : Rows) (program : List Buffer) (q : Pass) (ls : List Line)
    → pass_1 te junk none no_tables d program ≡ some q
    → pass_2 te (put_labels q.lines q.tables) q.lines ≡ some ls
    → Every (Landed te (put_labels q.lines q.tables)) ls
passes-Landed te junk d program q ls e h =
    let ready = given (
      subst (Holds (λ (q : Pass). Every Ready q.lines)) e
        (pass_1-Ready te junk none no_tables d program)) in
    given (
      subst (Holds (Every (Landed te (put_labels q.lines q.tables)))) h
        (pass_2-Landed te (put_labels q.lines q.tables) ready))
