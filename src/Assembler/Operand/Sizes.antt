-- ===== src/Assembler/Operand/Sizes.antt =====
-- What `get_operand` of src/operand.c leaves of a line, and the size that it gives.
use mikode.Prelude.{ℕ, ap, sym, ◌∙◌, false, List, ◌≡◌, refl, Option, if◌then◌else◌}
use mikode.Prelude.Holds.{Holds, fails, gives, if_Holds, any-Holds, bind-Holds}
use mikode.Assembler.Token.{Buffer, Scan}
use mikode.Assembler.Symbols.{Tables}
use mikode.Assembler.Expression.{Evaluator}
use mikode.Assembler.Opcodes.{OpType}
use mikode.Assembler.Line.{Line, Rows}
use mikode.Assembler.Patch.{Patch}
use mikode.Assembler.Operand.{operand_of, operand_by, get_operand}
use mikode.Assembler.Operand.Scanner.{Filled, filled, with_rows, start_at, next, step_back}
use mikode.Assembler.Operand.Registers.{
  op_dir_sing, op_dir_dual, op_dir_std, op_dir_word, op_ld_ind, op_str_ind,
}
use mikode.Assembler.Operand.Values.{
  op_imm_byte, op_imm_word, op_branch, op_br_bit, op_bit, op_ldstr_bit,
}
use mikode.Assembler.Operand.Values.{op_implied, op_dir_32, op_ld_dir, op_str_dir, address_at}
use mikode.Assembler.Operand.Bytes.{op_db}
use mikode.Image.{has_extra}

-- The line of `f` is that of before, but for its opcode, its second word, its patch and a size.
pub record Kept (l : Line) (size : ℕ) (f : Filled) : Type 0 where
  pub kept_address : f.line.address ≡ l.address
  pub kept_dataidx : f.line.dataidx ≡ l.dataidx
  pub kept_type : f.line.type ≡ l.type
  pub sized : f.line.size ≡ size

filled-Kept : (op size p : ℕ) (l : Line) → Holds (Kept l size) (filled op size p l)
filled-Kept op size p l =
    gives (record { kept_address = refl; kept_dataidx = refl; kept_type = refl; sized = refl })

filled_patch-Kept :
    (op p : ℕ) (k : Patch) (label : List ℕ) (l : Line)
    → Holds (Kept l 2) (filled op 2 p (record l { patch = k; patch_label = label }))
filled_patch-Kept op p k label l =
    gives (record { kept_address = refl; kept_dataidx = refl; kept_type = refl; sized = refl })

-- The same for the line with the address put in.
record Same (l : Line) (r : Line × Scan) : Type 0 where
  same_address : (r.0).address ≡ l.address
  same_dataidx : (r.0).dataidx ≡ l.dataidx
  same_type : (r.0).type ≡ l.type

filled_by-Kept :
    {l : Line} (r : Line × Scan) (op p : ℕ) → Same l r → Holds (Kept l 4) (filled op 4 p r.0)
filled_by-Kept r op p h = gives (record {
  kept_address = h.same_address;
  kept_dataidx = h.same_dataidx;
  kept_type = h.same_type;
  sized = refl;
})

address_at-Same :
    (t : Tables) (b : Buffer) (l : Line) (s : Scan) → Holds (Same l) (address_at t b l s)
unfolding address_at
address_at-Same t b l s =
    if_Holds _
      (any-Holds _
        λ v. gives (record { same_address = refl; same_dataidx = refl; same_type = refl }))
      (gives (record { same_address = refl; same_dataidx = refl; same_type = refl }))

module _ (te : Evaluator) (t : Tables) (b : Buffer) where
  -- An operand of every type but the data is taken with the size of its type.
  pub operand_of-Kept :
      (type : OpType) (l : Line) (p : ℕ)
      → Holds (Kept l (if has_extra type then 4 else 2)) (operand_of te t b type l p)
  unfolding operand_of op_dir_sing op_dir_dual op_dir_std op_imm_byte op_imm_word op_dir_word
      op_branch op_br_bit op_bit op_ldstr_bit op_implied op_dir_32 op_ld_ind op_str_ind op_ld_dir
      op_str_dir
  operand_of-Kept OpType.dir_sing l p = any-Holds _ λ d. filled-Kept _ 2 _ l
  operand_of-Kept OpType.dir_dual l p =
      any-Holds _ λ d. any-Holds _ λ u. any-Holds _ λ r. filled-Kept _ 2 _ l
  operand_of-Kept OpType.dir_std l p = any-Holds _ λ d. filled-Kept _ 2 _ l
  operand_of-Kept OpType.imm_byte l p =
      any-Holds _ λ d. any-Holds _ λ u. filled_patch-Kept _ _ _ _ l
  operand_of-Kept OpType.imm_word l p = any-Holds _ λ d.
      any-Holds _
        λ u. any-Holds _ λ r. any-Holds _ λ op. any-Holds _ λ u. filled_patch-Kept _ _ _ _ l
  operand_of-Kept OpType.dir_word l p = any-Holds _ λ d. any-Holds _ λ u. any-Holds _ λ r.
      any-Holds _ λ u.
        any-Holds _ λ r. any-Holds _ λ u. any-Holds _ λ r. any-Holds _ λ op. filled-Kept _ 2 _ l
  operand_of-Kept OpType.branch l p = filled_patch-Kept _ _ _ _ l
  operand_of-Kept OpType.br_bit l p =
      any-Holds _ λ q. any-Holds _ λ op. any-Holds _ λ u. filled_patch-Kept _ _ _ _ l
  operand_of-Kept OpType.bit l p = any-Holds _ λ q. any-Holds _ λ op. filled-Kept _ 2 _ l
  operand_of-Kept OpType.ldstr_bit l p =
      any-Holds _ λ d. any-Holds _ λ u. any-Holds _ λ q. any-Holds _ λ op. filled-Kept _ 2 _ l
  operand_of-Kept OpType.implied l p = filled-Kept _ 2 _ l
  operand_of-Kept OpType.dir_32 l p =
      bind-Holds (address_at-Same t b l (start_at p)) λ r h. filled_by-Kept r _ _ h
  operand_of-Kept OpType.ld_ind l p =
      any-Holds _ λ d. any-Holds _ λ u. any-Holds _ λ m. filled-Kept _ 2 _ l
  operand_of-Kept OpType.str_ind l p =
      any-Holds _ λ m. any-Holds _ λ u. any-Holds _ λ d. filled-Kept _ 2 _ l
  operand_of-Kept OpType.ld_dir l p = any-Holds _ λ d. any-Holds _ λ u.
      bind-Holds (address_at-Same t b l (next b (step_back (next b (start_at p)))))
        λ r h. filled_by-Kept r _ _ h
  operand_of-Kept OpType.str_dir l p =
      bind-Holds (address_at-Same t b l (start_at p))
        λ r h. any-Holds _ λ u. any-Holds _ λ d. filled_by-Kept r _ _ h
  operand_of-Kept OpType.db_t l p = fails
  operand_of-Kept OpType.skip l p = fails
  operand_of-Kept OpType.dir_bit l p = fails

-- What the bytes of the line will need: its opcode and second word fill its size, or it has no
-- code.
pub data Sized (l : Line) : Type 0 where
  coded : l.dataidx ≡ 0 → l.size ≡ (if has_extra l.type then 4 else 2) → Sized l
  bare : l.opcode ≡ 0xffff → l.patch ≡ Patch.no_patch → has_extra l.type ≡ false → Sized l

-- What a line keeps of where it stands.
pub record Placed (l : Line) (l' : Line) : Type 0 where
  pub address_kept : l'.address ≡ l.address
  pub sized : Sized l'

with_rows-Holds :
    (l : Line) (n : ℕ) (d : Rows) {m : Option Filled}
    → l.dataidx ≡ 0
    → n ≡ (if has_extra l.type then 4 else 2)
    → Holds (Kept l n) m
    → Holds (λ (r : Filled × Rows). Placed l r.0.line) (with_rows d m)
with_rows-Holds l n d no_data e fails = fails
with_rows-Holds l n d no_data e (gives {a} k) = gives (record {
  address_kept = k.kept_address;
  sized =
      coded (k.kept_dataidx ∙ no_data)
        (k.sized ∙ e ∙ ap (λ type. if has_extra type then 4 else 2) (sym k.kept_type));
})

op_db-Placed :
    (t : Tables) (b : Buffer) (l : Line) (p : ℕ) (d : Rows)
    → l.patch ≡ Patch.no_patch
    → has_extra l.type ≡ false
    → Holds (λ (r : Filled × Rows). Placed l r.0.line) (op_db t b l p d)
unfolding op_db
op_db-Placed t b l p d h k =
    any-Holds _ λ f. gives (record { address_kept = refl; sized = bare refl h k })

operand_by-Placed :
    (te : Evaluator) (t : Tables) (b : Buffer) (type : OpType) (l : Line) (p : ℕ) (d : Rows)
    → l.type ≡ type
    → l.dataidx ≡ 0
    → l.patch ≡ Patch.no_patch
    → Holds (λ (r : Filled × Rows). Placed l r.0.line) (operand_by te t b type l p d)
unfolding operand_by
operand_by-Placed te t b OpType.db_t l p d e h k = op_db-Placed t b l p d k (ap has_extra e)
operand_by-Placed te t b type l p d e h k =
    with_rows-Holds l _ d h (ap (λ type. if has_extra type then 4 else 2) (sym e))
      (operand_of-Kept te t b type l p)

-- What `get_operand` gives keeps the address of the line, and is sized.
pub get_operand-Placed :
    (te : Evaluator) (t : Tables) (b : Buffer) (l : Line) (p : ℕ) (d : Rows)
    → l.dataidx ≡ 0
    → l.patch ≡ Patch.no_patch
    → Holds (λ (r : Filled × Rows). Placed l r.0.line) (get_operand te t b l p d)
unfolding get_operand
get_operand-Placed te t b l p d h k = operand_by-Placed te t b l.type l p d refl h k
