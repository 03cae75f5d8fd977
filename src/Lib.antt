-- ===== src/Lib.antt =====
-- mikode: an assembler and an emulator for a small AVR-like machine.
--
-- The assembler reads a program line by line (compile of src/parse.c): parse cuts a line into tokens
-- (src/token.c), the mnemonic is looked up in a table (getopcode of src/opcode.c), and get_operand
-- (src/operand.c) reads the operands and joins them into the opcode of the row. Directives fill the
-- tables of equates and definitions (src/directive.c); numbers are read by get_val (src/misc.c). A
-- second pass puts in the values of label expressions (get_expr of src/expression.c). The
-- emulator (src/execute.c, src/run_misc.c) fetches an opcode, finds its handler by a ladder of
-- masks, and lets the handler change the machine; run_io (src/display.c) then shows it. Between the
-- two stands the object file (src/write.c, src/load.c).
--
-- Where things are:
--   Prelude    numbers, tests, bits and words that all parts share
--   Machine    run_state and the memory behind prog (src/runheader.h); Machine/Status, Machine/Memory
--              are the helpers of src/run_misc.c, by their C names
--   Handlers   the handlers of src/execute.c by their C names (com is com_reg here), by group: Add,
--              Sub, Logic, Shift, Bits, Flow, Data; Fields are the operand fields of an opcode
--   Decode     the ladder of execute: decode names the handler; Dispatch calls it
--   Execute    the loop of execute, round its turn; Execute/Reach the machines it passes through
--   Display    run_io of src/display.c, which Display/Run puts into execute
--   Assembler  Token is src/token.c, Symbols and Directive src/directive.c, Value src/misc.c,
--              Expression src/expression.c, Opcodes src/opcode.c; Operand is get_operand of
--              src/operand.c, one function for each operand type in Operand/, whose joins are in
--              Encode; Parse and Compile are src/parse.c, whose patch of one line is in Patch
--   Image      the object file: write_asm of src/write.c and load of src/load.c
--   Gpio       the pins of src/pi_gpio.c: Calls are the calls of the system, Setup is gpio_init, RunIo
--              the part of run_io for the pins, which RunIo/Turn specifies and RunIo/Run puts into
--              execute; Read and Exports say what the files of the pins are read and written for
--   Program    both commands from the command line on: Main is src/main.c, Run src/run.c, Compile the
--              files of compile in src/parse.c, Text the lines of a source, Listing write_listing of
--              src/write.c, Cleanup what compile frees at its end; Laws and Assembled run one command behind the other, Status is how it ends
--   Tests      concrete machines and lines
--
-- How the code is read: a uint8_t or uint16_t is a number with its wrap-around written out; `~` is
-- on 32 bits, as after promotion to int. reg and *prog are functions of an index, so an access
-- behind the end of a C array, which C leaves undefined, is an access to a further element here. A
-- handler returns its int and the machine. Strings are lists of character codes without their
-- terminators. The loop of execute need not end, so it runs on fuel; out_of_fuel is an outcome of its
-- own, which the statements on finished runs exclude. In the assembler a line is a memory and an
-- index; the loops of src/token.c and src/expression.c stop at their own bounds, MAX_BUF, MAX_DATA and
-- MAX_LBL, which serve as fuel. A return of -1 and a jump to fatal are none; so is a run_io that waits
-- for a key that never comes. What fresh memory holds, where the code reads it before it is set, is
-- a parameter; a free of a pointer that was never set is an outcome of its own, bad_free.
--
-- Not modelled: the delay between turns; the ends of the fixed arrays, which the code overruns without
-- looking (lists and functions stand for them); getopt_long, whose results are given; what the program
-- prints, but for its usage, help and version; val_label, which is never called, and get_func, which
-- always fails; more_data, malloc and fsync, taken to succeed; the set-up of ncurses and the text window
-- of src/display.c; and src/tinyexpr_bitw.c, a copy of TinyExpr, whose evaluation is a parameter.
pub mod Prelude
pub mod Machine
pub mod Handlers
pub mod Decode
pub mod Dispatch
pub mod Execute
pub mod Display
pub mod Assembler
pub mod Image
pub mod Gpio
pub mod Program
pub mod Tests
