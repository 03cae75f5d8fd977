-- ===== src/Assembler/Line.antt =====
-- `line` of src/common.h, and the rows of `dp` with `realloc_count`.
use mikode.Prelude.{ℕ, List, []}
use mikode.Assembler.Opcodes.{OpType}
use mikode.Assembler.Patch.{Patch}
use mikode.Image

-- `text` and `operand` are left out: the first is only printed, the second never used.
pub record Line : Type 0 where
  pub label : List ℕ
  pub size : ℕ
  pub type : OpType
  pub opcode : ℕ
  pub address : ℕ
  pub opextra : ℕ
  pub dataidx : ℕ
  pub comment : List ℕ
  pub patch : Patch
  pub patch_label : List ℕ

-- `memset (in, 0, sizeof (line))`
abbrev pub zero_line : Line
zero_line = record {
  label = [];
  size = 0;
  type = OpType.dir_word;
  opcode = 0;
  address = 0;
  opextra = 0;
  dataidx = 0;
  comment = [];
  patch = Patch.no_patch;
  patch_label = [];
}

pub record Rows : Type 0 where
  pub rows : ℕ → ℕ → ℕ
  pub realloc_count : ℕ

-- What src/write.c reads of a line.
abbrev pub object_line : Line → Image.Line
object_line l = record {
  address = l.address;
  size = l.size;
  dataidx = l.dataidx;
  type = l.type;
  opcode = l.opcode;
  opextra = l.opextra;
}
