-- ===== src/Drivers.antt =====
-- The device drivers of kernel/drivers, by what they write to the I/O ports.
pub mod Pic
pub mod Pit
pub mod Serial
pub mod Keyboard
pub mod IoApic
pub mod Lapic
use catch_os.Base.{ℕ, ◌%◌, List, ◌∷◌}

-- The writes to I/O ports, each with its port and its byte, the latest first.
abbrev pub Writes : Type 0
Writes = List (ℕ × ℕ)

abbrev pub outb : ℕ → ℕ → Writes → Writes
outb port byte out = (port, byte % 256) ∷ out
