-- ===== src/Ec/Device.antt =====
-- The embedded controller as its callers may rely on it: the ACPI embedded-controller protocol
-- over the command and status port and the data port. The controller itself is not in the
-- repository, so this is a list of hypotheses on `Ports`.
use ugreen_frontpanel.Base.{ℕ, ◌≤◌, ◌-◌, ◌≡◌, bit_and, ◌==◌, if◌then◌else◌}
use ugreen_frontpanel.Ec.Ports.{Ports}
use ugreen_frontpanel.Ec.Helper.{
  ec_d_port, ec_c_port, ec_s_ibf, ec_s_obf, ec_c_read_mem, ec_c_write_mem,
}

-- How far the controller is in a transaction.
pub data Phase : Type 0 where
  idle : Phase
  read_address : Phase
  read_value : ℕ → Phase
  write_address : Phase
  write_value : ℕ → Phase

abbrev pub Memory : Type 0
Memory = ℕ → ℕ

abbrev pub store : Memory → ℕ → ℕ → Memory
store m a v b = if a == b then v else m b

-- A byte on the command port.
abbrev pub on_command : ℕ → Phase
on_command c =
    if c == ec_c_read_mem then read_address else if c == ec_c_write_mem then write_address else idle

-- A byte on the data port.
abbrev pub on_data : ℕ → Phase → Memory → Phase × Memory
on_data d idle m = (idle, m)
on_data d read_address m = (read_value (m d), m)
on_data d (read_value v) m = (read_value v, m)
on_data d write_address m = (write_value d, m)
on_data d (write_value a) m = (idle, store m a d)

abbrev pub output_flag : Phase → ℕ
output_flag (read_value v) = 1
output_flag _ = 0

-- The hypotheses. `wait w` is the number of status reads for which the controller stays busy: it
-- is never as large as the five polls that the driver makes, and each status read lowers it.
pub record IsController (hw : Ports) : Type 0 where
  pub phase : hw.World → Phase
  pub memory : hw.World → Memory
  pub wait : hw.World → ℕ
  pub prompt : (w : hw.World) → wait w ≤ 4
  pub status_ibf :
      (w : hw.World) → bit_and (hw.inb ec_c_port w).0 ec_s_ibf ≡ (if wait w == 0 then 0 else 2)
  pub status_obf :
      (w : hw.World)
      → bit_and (hw.inb ec_c_port w).0 ec_s_obf ≡ (if wait w == 0 then output_flag (phase w) else 0)
  pub status_phase : (w : hw.World) → phase (hw.inb ec_c_port w).1 ≡ phase w
  pub status_memory : (w : hw.World) → memory (hw.inb ec_c_port w).1 ≡ memory w
  pub status_wait : (w : hw.World) → wait (hw.inb ec_c_port w).1 ≤ wait w - 1
  pub sleep_phase : (n : ℕ) (w : hw.World) → phase (hw.msleep n w) ≡ phase w
  pub sleep_memory : (n : ℕ) (w : hw.World) → memory (hw.msleep n w) ≡ memory w
  pub sleep_wait : (n : ℕ) (w : hw.World) → wait (hw.msleep n w) ≤ wait w
  -- What is written counts only once the controller is not busy.
  pub command_phase :
      (c : ℕ) (w : hw.World) → wait w ≡ 0 → phase (hw.outb c ec_c_port w) ≡ on_command c
  pub command_memory :
      (c : ℕ) (w : hw.World) → wait w ≡ 0 → memory (hw.outb c ec_c_port w) ≡ memory w
  pub data_phase :
      (d : ℕ) (w : hw.World)
      → wait w ≡ 0
      → phase (hw.outb d ec_d_port w) ≡ (on_data d (phase w) (memory w)).0
  pub data_memory :
      (d : ℕ) (w : hw.World)
      → wait w ≡ 0
      → memory (hw.outb d ec_d_port w) ≡ (on_data d (phase w) (memory w)).1
  pub value_read :
      (v : ℕ) (w : hw.World) → wait w ≡ 0 → phase w ≡ read_value v → (hw.inb ec_d_port w).0 ≡ v
  pub value_memory : (w : hw.World) → memory (hw.inb ec_d_port w).1 ≡ memory w
  pub request_memory : (p : ℕ) (w : hw.World) → memory (hw.request_muxed_region p w).1 ≡ memory w
  pub release_memory : (p : ℕ) (w : hw.World) → memory (hw.release_region p w) ≡ memory w
