-- ===== src/Tests/Pmp.antt =====
-- The check of the PMP on three entries: a range, a word, and an aligned range of eight bytes, locked.
use qinglong_core.Prelude.{ℕ, ◌≡◌, refl, ◌==◌, if◌then◌else◌, true, false}
use qinglong_core.Hw.Pmp.{Access, match_napot, entry_match, entry_allowed, any_active, pick, fault}
use qinglong_core.Hw.Pmp.Check.{Checked, fault-Checked}

-- Below 0x1000 all may read; the word 0x2000 may be read and executed; nobody may touch 0x80000000.
abbrev cfg : ℕ → ℕ
cfg i = if i == 1 then 0x09 else if i == 2 then 0x15 else if i == 5 then 0x98 else 0

abbrev addr : ℕ → ℕ
addr i = if i == 1 then 0x400 else if i == 2 then 0x800 else if i == 5 then 0x20000000 else 0

abbrev read_of : ℕ → ℕ → Access
read_of p a = record { priv = p; addr = a; is_read = true; is_write = false; is_exec = false }

abbrev exec_of : ℕ → ℕ → Access
exec_of p a = record { priv = p; addr = a; is_read = false; is_write = false; is_exec = true }

some_reads :
    (fault cfg addr (read_of 0 0xFFF) ≡ false)
    × (fault cfg addr (exec_of 0 0xFFF) ≡ true)
    × (fault cfg addr (exec_of 0 0x2003) ≡ false)
    × (fault cfg addr (exec_of 0 0x2004) ≡ true)
    × (fault cfg addr (read_of 3 0x2004) ≡ false)
    × (fault cfg addr (read_of 3 0x80000007) ≡ true)
    × (fault cfg addr (read_of 3 0x80000008) ≡ false)
unfolding fault pick any_active entry_match entry_allowed match_napot
some_reads = (refl, refl, refl, refl, refl, refl, refl)

-- A range up to the end of the address space is read as an empty one.
top_lost : fault (λ i. if i == 0 then 0x0F else 0) (λ i. 0x40000000) (read_of 0 0x1000) ≡ true
unfolding fault pick any_active entry_match entry_allowed match_napot
top_lost = refl

fault-Checked_example :
    Checked cfg addr (read_of 3 0x80000007) (fault cfg addr (read_of 3 0x80000007))
fault-Checked_example = fault-Checked cfg addr (read_of 3 0x80000007)
