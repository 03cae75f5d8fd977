-- ===== src/Handlers/Valid.antt =====
-- Every handler of src/execute.c keeps the ranges of the machine's fields.
pub mod Alu
pub mod Control
