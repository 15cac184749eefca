-- ===== src/Cpu6502/Table.antt =====
-- crates/cpu6502/src/table.rs: the opcode table and the look-up `OPCODE_TABLE[opcode as usize]`.
mod Info
mod Low
mod High
use Low.{row_0, row_1, row_2, row_3, row_4, row_5, row_6, row_7}
use High.{row_8, row_9, row_a, row_b, row_c, row_d, row_e, row_f}
pub use Info.{OpInfo, op}
use nes_to_sms.Base.{ℕ, List, ◌++◌, get_or, false}
use nes_to_sms.Cpu6502.Isa.{jam, implied}

unfoldable pub opcode_table : List OpInfo
opcode_table =
    row_0
    ++ (row_1
        ++ (row_2
            ++ (row_3
                ++ (row_4
                    ++ (row_5
                        ++ (row_6
                            ++ (row_7
                                ++ (row_8
                                    ++ (row_9
                                        ++ (row_a
                                            ++ (row_b
                                                ++ (row_c ++ (row_d ++ (row_e ++ row_f))))))))))))))

-- An opcode is a byte, so the default is never taken.
unfoldable pub opcode_info : ℕ → OpInfo
unfolding opcode_table
opcode_info opcode = get_or opcode_table opcode (op jam implied 0 false)
