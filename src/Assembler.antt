-- ===== src/Assembler.antt =====
-- The assembler: src/token.c, src/directive.c, src/misc.c, src/expression.c, src/opcode.c,
-- src/operand.c and src/parse.c.
pub mod Token
pub mod Symbols
pub mod Value
pub mod Directive
pub mod Expression
pub mod Line
pub mod Operand
pub mod Parse
pub mod Compile
pub mod Opcodes
pub mod Encode
pub mod Patch
