-- ===== src/Sim/Text.antt =====
-- The text that the testbench writes with `fprintf`, as bytes.
use qinglong_core.Prelude.{
  ℕ, zero, suc, codes, ◌+◌, ◌/◌, ◌%◌, ltb, if◌then◌else◌, Bytes, [], ◌∷◌, ◌++◌,
}
use qinglong_core.Sim.Soc.{Outputs}

-- A digit, in lower case.
abbrev pub hex_digit : ℕ → ℕ
hex_digit d = if ltb d 10 then 48 + d else 87 + d

-- %08x of a uint32_t: its last `n` hexadecimal digits.
unfoldable pub hex : ℕ → ℕ → Bytes
hex zero v = []
hex (suc n) v = hex n (v / 16) ++ hex_digit (v % 16) ∷ []

-- %2u, for a register's number: at least two columns, filled with a blank.
unfoldable pub dec2 : ℕ → Bytes
dec2 v = if ltb v 10 then b' ' ∷ (48 + v) ∷ [] else (48 + v / 10 % 10) ∷ (48 + v % 10) ∷ []

abbrev pub hex8 : ℕ → Bytes
hex8 = hex 8

-- The line of the commit trace, with its two optional parts.
unfoldable pub commit_line : Outputs → Bytes
unfolding hex dec2
commit_line o =
    codes "core   0: 3 0x"
    ++ (hex8 o.commit_pc
        ++ (codes " (0x"
            ++ (hex8 o.commit_insn
                ++ (codes ")"
                    ++ ((if o.commit_rd_wen
                          then codes " x"
                            ++ (dec2 o.commit_rd_addr ++ (codes " 0x" ++ hex8 o.commit_rd_data))
                          else [])
                        ++ ((if o.commit_trap
                              then codes " TRAP cause=0x" ++ hex8 o.commit_cause
                              else [])
                            ++ b'\n' ∷ []))))))
