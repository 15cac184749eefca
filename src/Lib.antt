-- ===== src/Lib.antt =====
-- nes-to-sms: a model of the parts of the converter that read a NES cartridge and execute its code.
--
-- crates/cpu6502 decodes 6502 machine code by one table of 256 opcodes. crates/oracle_6502 interprets
-- it over a bus and is the reference of the differential tests of the translated program.
-- crates/nes_rom parses the ROM image, resolves the mapper policy that the analysis and the conversion
-- share, and describes the cartridge boards, whose registers the bus of the reference writes and whose
-- address maps it reads through. crates/z80_emit encodes the Z80 code that the back end emits, and crates/z80_emu
-- interprets it, for the other side of the differential tests. The files follow this:
--
-- Base and its children: numbers of a width, tests on numbers, lists by index, `Result` and its `?`,
-- the monad of a state with errors (Exec), bit operations, `is_power_of_two`, and the lemmas and passed-on names that all other files share.
--
-- Cpu6502 (crates/cpu6502/src). Isa: `AddrMode`, `Mnemonic`, `Operand`, `Instruction` and their
-- predicates. Table: `OPCODE_TABLE`, row by row. Decode: `decode_at` and `branch_target`. Timing:
-- `Instruction::timing`. Encoding: an encoder that the source does not have, against which the decoder
-- is stated.
--
-- Oracle6502 (crates/oracle_6502/src/lib.rs). Cpu: the registers, the flags and the operations that
-- touch no memory. Machine: the `Bus` trait, which a parameter stands for, with its state passed
-- through; the monad of the interpreter, whose error is either a `StepError` or a panic of the source
-- (`unwrap` of `None`, `unreachable!`, `panic!`) and keeps the state it was met in; the stack; the
-- interrupts. Address: `resolve_ea` and `read_operand`. Execute: `execute`, one clause for each
-- mnemonic. Step: `step` and `run_until_rts`, whose fuel is the step budget that the source itself has.
-- The depth counter of `run_until_rts` is an `i32` whose overflow is a panic, which it is where the build
-- checks overflows; elsewhere it would wrap. Status,
-- Arithmetic, Registers, Hoare, Safety, Families, Execution, Running, Total, Budget, Stack and Control
-- hold the proofs. The laws of a bus (`Hoare.ByteBus`) say that a read gives a byte, as the type `u8`
-- does in the source; the flat bus meets them.
--
-- NesRom (crates/nes_rom/src). Header: `parse_header` and `parse`. Image: their proofs. Policy:
-- `MapperPolicy` and both resolvers. Vectors: the vectors and the maps without a policy. Windows,
-- Selected, View and Fixed: their proofs. Axrom, Mmc1 and Mmc3: the boards, each with child modules for their proofs; `write_register` of MMC1 and
-- MMC3 answers `none` where the source panics;
-- Banks: what a byte keeps of a bank count. A constructor's early returns are a chain of `refuse_if`.
--
-- Z80Emu (crates/z80_emu/src/lib.rs). Cpu: the registers, the flags and the arithmetic. Machine: the
-- `Bus` trait with its ports, a parameter as above, and the operations that fetch, push and pop. Low,
-- High, Shifts, Block and Extended: the match arms of `step`, below 0x40, from 0x40, after the prefix
-- CB, and after ED; a list of arms, each with its opcode, stands for the arms of a match. Step: `step` and
-- `run_until_ret`, whose fuel is the step budget that the source itself has; the overflow of its depth, an
-- `i32`, is a panic as above. The count of cycles, a `u64`, is not bounded.
-- Bounds, Registers, Hoare, LowSafety, HighSafety, ExtendedSafety, Safety, Flags, Arithmetic, Stack,
-- Rotations, BlockStep and BlockCopy hold the proofs; BlockCopy runs the interpreter for a number of
-- steps (`steps`), which the source does not name.
--
-- Z80Emit (crates/z80_emit/src/lib.rs). Section and Program: the sections, labels and patches and what
-- sets them; a hash map is an association list whose last entry for a key counts. Encode: the helpers
-- that emit, and the instructions that name a label. Loads, Arithmetic, Logic, Moves and Control: the
-- methods that encode one instruction, one definition for each. Transfers: the single bits, and the
-- transfers between routines that make no fresh label. Finish: `unresolved_labels` and `finish`; an
-- environment variable that `finish` reads is its argument, and an error about a relative jump keeps the
-- two addresses in place of their signed difference. Of the listing only the number of lines is kept,
-- which decides whether an empty section is left out of it. Sections, Placed, Built, Patching, Linking,
-- Methods and Executed hold the proofs; Built runs any sequence of the calls, and Executed runs what the
-- encoder emits in Z80Emu. An index of a section that does not exist, which would panic, changes nothing. An
-- alignment of 0, which would panic too, is not told apart.
--
-- Assets (crates/assets/src/lib.rs). Convert: tiles, palettes and nametables; Tiles: the proof about
-- tiles.
--
-- Widths: bytes and words are natural numbers with the wrap-around written out (`u8`, `u16`);
-- `usize` is not bounded. An index out of range of a Rust array would panic; the indices of the boards
-- are in range by their construction, and a default stands in their place.
--
-- Not modelled: the formatting of instructions, errors and checksums; the boards CNROM, MMC2, MMC5,
-- VRC2/4 and FME-7; of the Z80 encoder, the listing, the labels made of text and the calls through
-- them (the far and the translated calls with their frames); static analysis, the intermediate
-- representation, the lowering to Z80, the picture of a tile sheet in the assets, the profiles, the project writer, the command line and the runtime
-- in assembler.
pub mod Base
pub mod Cpu6502
pub mod Oracle6502
pub mod NesRom
pub mod Z80Emu
pub mod Z80Emit
pub mod Assets
