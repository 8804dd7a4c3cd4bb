-- ===== src/Tests/Controller.antt =====
-- A controller to run the drivers against: its state is the phase, the memory and the status reads
-- for which it is busy. It is busy for three reads after each byte that it takes.
use ugreen_frontpanel.Base.{
  ℕ, ◌-◌, ◌≡◌, refl, ap, Bool, true, false, arith, bit_and, ◌==◌, if◌then◌else◌, Io,
}
use ugreen_frontpanel.Ec.Ports.{Ports}
use ugreen_frontpanel.Ec.Helper.{ec_s_ibf, ec_s_obf}
use ugreen_frontpanel.Ec.Device.{
  Phase, idle, read_value, Memory, on_command, on_data, output_flag, IsController,
}
use Prim.Native.Nat.{min}

pub record Chip : Type 0 where
  pub phase : Phase
  pub memory : Memory
  pub busy : ℕ

abbrev pub value_at : Phase → ℕ
value_at (read_value v) = v
value_at _ = 0

abbrev pub wait_of : Chip → ℕ
wait_of c = min c.busy 4

abbrev pub status_of : Chip → ℕ
status_of c = if wait_of c == 0 then output_flag c.phase else 2

abbrev pub chip_inb : ℕ → Io Chip ℕ
chip_inb port c =
    if port == 0x66
    then (status_of c, record c { busy = wait_of c - 1 })
    else (value_at c.phase, record c { phase = idle })

abbrev pub chip_outb : ℕ → ℕ → Chip → Chip
chip_outb value port c =
    if port == 0x66 then record c { phase = on_command value; busy = 3 } else record {
      phase = (on_data value c.phase c.memory).0;
      memory = (on_data value c.phase c.memory).1;
      busy = 3;
    }

abbrev pub chip : Ports
chip = record {
  World = Chip;
  inb = chip_inb;
  outb = chip_outb;
  msleep = λ n c. c;
  mdelay = λ n c. record c { busy = 0 };
  request_muxed_region = λ p c. (true, c);
  release_region = λ p c. c;
}

flags-by_cases :
    (ready : Bool) (p : Phase)
    → (bit_and (if ready then output_flag p else 2) ec_s_ibf ≡ (if ready then 0 else 2))
      × (bit_and (if ready then output_flag p else 2) ec_s_obf
          ≡ (if ready then output_flag p else 0))
flags-by_cases false p = (refl, refl)
flags-by_cases true (read_value v) = (refl, refl)
flags-by_cases true _ = (refl, refl)

pub status_flags :
    (c : Chip)
    → (bit_and (status_of c) ec_s_ibf ≡ (if wait_of c == 0 then 0 else 2))
      × (bit_and (status_of c) ec_s_obf ≡ (if wait_of c == 0 then output_flag c.phase else 0))
status_flags c = flags-by_cases (wait_of c == 0) c.phase

abbrev pub chip-IsController : IsController chip
chip-IsController = record {
  phase = λ c. c.phase;
  memory = λ c. c.memory;
  wait = wait_of;
  prompt = λ c. omega arith;
  status_ibf = λ c. (status_flags c).0;
  status_obf = λ c. (status_flags c).1;
  status_phase = λ c. refl;
  status_memory = λ c. refl;
  status_wait = λ c. omega arith;
  sleep_phase = λ n c. refl;
  sleep_memory = λ n c. refl;
  sleep_wait = λ n c. omega arith;
  command_phase = λ b c h. refl;
  command_memory = λ b c h. refl;
  data_phase = λ d c h. refl;
  data_memory = λ d c h. refl;
  value_read = λ v c h p. ap value_at p;
  value_memory = λ c. refl;
  request_memory = λ p c. refl;
  release_memory = λ p c. refl;
}
