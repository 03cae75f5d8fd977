-- ===== src/Handlers.antt =====
-- The instruction handlers of src/execute.c, one function for each, in groups.
pub mod Fields
pub mod Add
pub mod Sub
pub mod Logic
pub mod Shift
pub mod Bits
pub mod Flow
pub mod Data
pub mod Valid
