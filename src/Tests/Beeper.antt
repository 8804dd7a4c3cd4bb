-- ===== src/Tests/Beeper.antt =====
-- Runs of the beeper.
use ugreen_frontpanel.Base.{
  [], ◌∷◌, false, true, ℕ, ◌*◌, ◌%◌, ◌≡◌, refl, fun_ext, arith, List, Option, none, some, codes,
  count, strcmp_eq, strncmp_eq, ◌==◌, if◌then◌else◌,
}
use ugreen_frontpanel.ProcFile.{UserBuffer, copy_line}
use ugreen_frontpanel.Ec.Ports.{Ports}
use ugreen_frontpanel.Ec.Device.{idle, store}
use ugreen_frontpanel.Beeper.Speaker.{superio_write_byte, switch_beeper}
use ugreen_frontpanel.Beeper.Speaker.Laws.{IsPatient, superio_write_byte_hangs}
use ugreen_frontpanel.Beeper.Timer.{Beeper}
use ugreen_frontpanel.Beeper.Timer.Laws.{Switches, expire}
use ugreen_frontpanel.Beeper.Command.{beeper_command, beeper_write, beeper_read}
use ugreen_frontpanel.Beeper.Command.Laws.{beeper_write-expire}
use ugreen_frontpanel.Beeper.Command.Boot.{IsCmos, beeper_read-beeper_write}
use ugreen_frontpanel.Beeper.Steps.{initial, IsValid, Steps, typed, stay, next}
use ugreen_frontpanel.Beeper.Steps.Laws.{reachable-IsValid}
use ugreen_frontpanel.Beeper.Slots.{
  Locals, dmi_get_product, slots_of_four, read_slot, read_slots, sata_satate_read,
}
use ugreen_frontpanel.Beeper.Slots.Laws.{all_mapped, sata_satate_read_lem}
use ugreen_frontpanel.Tests.Controller.{Chip, chip, chip-IsController}

abbrev chip-IsPatient : IsPatient chip chip-IsController
chip-IsPatient = record {
  delay_ready = λ c. refl;
  delay_phase = λ c. refl;
  delay_memory = λ c. refl;
}

abbrev ready : Chip
ready = record { phase = idle; memory = λ a. a * 7 % 256; busy = 0 }

-- Ports with nothing behind them.
abbrev absent : Ports
absent = record {
  World = ℕ;
  inb = λ port n. (255, n);
  outb = λ value port n. n;
  msleep = λ ms n. n;
  mdelay = λ ms n. n;
  request_muxed_region = λ port n. (true, n);
  release_region = λ port n. n;
}

superio_write_byte_hangs_example : superio_write_byte absent 1000 1 0xa5 0 ≡ none
superio_write_byte_hangs_example = superio_write_byte_hangs absent 1000 1 0xa5 0 (λ v. refl)

absent-Switches : Switches absent 1 (codes "DXP4800")
unfolding switch_beeper strcmp_eq
absent-Switches = λ on n e. cc

abbrev typed_text : List ℕ → UserBuffer
typed_text bytes = record { bytes = bytes; readable = true }

-- The numbers that the texts below hold.
abbrev two_numbers : List ℕ → Option (ℕ × ℕ)
two_numbers buf = some (500, 100)

abbrev three_numbers : List ℕ → Option (ℕ × ℕ × ℕ)
three_numbers buf = some (3, 500, 100)

-- An earlier beep was stopped after its first time.
abbrev interrupted : Beeper
interrupted = record initial { count = 1 }

beeper_write-expire_example :
    let b' = record interrupted {
      delay_off = 500;
      delay_on = 100;
      g_count = 3;
      timer = some 100;
      timer_status = 1;
    } in
    (beeper_write absent 1
        (codes "DXP4800")
        two_numbers
        three_numbers
        (typed_text (codes "rep 3 500 100"))
        (interrupted, 0)
      ≡ some (count 13, b', 0))
    × ((s : Beeper × ℕ) × (expire absent 1 (codes "DXP4800") 2 (b', 0) ≡ some s)
        × (s.0.timer ≡ none)
        × (s.0.timer_status ≡ 0))
unfolding strncmp_eq
beeper_write-expire_example =
    beeper_write-expire absent 1 (codes "DXP4800") two_numbers three_numbers
      (typed_text (codes "rep 3 500 100")) 3 500 100 2 interrupted 0 absent-Switches refl
      (omega arith) (omega arith) refl refl (omega arith) (refl, omega arith) (omega arith)
      (omega arith)

abbrev counted : Beeper
counted = record initial { g_count = 2 }

abbrev running : Beeper
running = record initial { delay_off = 500; delay_on = 100; timer = some 100; timer_status = 1 }

one_command : Steps absent 1 (codes "DXP4800") two_numbers three_numbers (initial, 0) (running, 0)
unfolding beeper_write copy_line beeper_command strncmp_eq
one_command =
    next (initial, 0) (running, 0) (running, 0)
      (typed (typed_text (codes "timer 500 100")) (count 13) (initial, 0) (running, 0) refl)
      (stay (running, 0))

reachable-IsValid_example : IsValid running
reachable-IsValid_example =
    reachable-IsValid absent 1 (codes "DXP4800") two_numbers three_numbers 0 (running, 0)
      one_command

-- The battery-backed memory: the byte that is selected, and the bytes.
record Cmos : Type 0 where
  chosen : ℕ
  bytes : ℕ → ℕ

abbrev cmos_outb : ℕ → ℕ → Cmos → Cmos
cmos_outb value port c =
    if port == 0x70
    then record c { chosen = value }
    else record c { bytes = store c.bytes c.chosen (value % 256) }

abbrev cmos : Ports
cmos = record {
  World = Cmos;
  inb = λ port c. (c.bytes c.chosen % 256, c);
  outb = cmos_outb;
  msleep = λ ms c. c;
  mdelay = λ ms c. c;
  request_muxed_region = λ port c. (true, c);
  release_region = λ port c. c;
}

abbrev cmos-IsCmos : IsCmos cmos
cmos-IsCmos = record {
  cell = λ c i. c.bytes i % 256;
  selected = λ c. c.chosen;
  cell_bound = λ c i. omega arith;
  select_selected = λ i c. refl;
  select_cell = λ i c. refl;
  read_value = λ c. refl;
  read_selected = λ c. refl;
  read_cell = λ c. refl;
  write_cell = λ v c h. fun_ext λ i. ground arith;
}

abbrev blank : Cmos
blank = record { chosen = 0; bytes = λ i. 0x55 }

beeper_read-beeper_write_example :
    (w : Cmos) × (beeper_write cmos 1
        (codes "DXP4800")
        two_numbers
        three_numbers
        (typed_text (codes "booton"))
        (initial, blank)
      ≡ some (count 6, initial, w))
    × ((beeper_read cmos 1 (codes "DXP4800") w).0 ≡ codes "booton")
    × (cmos-IsCmos.cell w ≡ store (cmos-IsCmos.cell blank) 0x66 0x54)
unfolding strncmp_eq
beeper_read-beeper_write_example =
    beeper_read-beeper_write cmos cmos-IsCmos 1 (codes "DXP4800") two_numbers three_numbers
      (typed_text (codes "booton")) initial blank refl (omega arith) (omega arith) refl

abbrev on_stack : Locals
on_stack = record { val = 7; u2_v1 = 9; u2_v2 = 0 }

sata_satate_read_lem_example :
    sata_satate_read (codes "DXP2800 GT") 0 [] (λ i. 0) (λ i. 0) on_stack
    ≡ (codes "U.2_1", true) ∷ (codes "U.2_2", false) ∷ []
unfolding dmi_get_product strcmp_eq strncmp_eq
sata_satate_read_lem_example = sata_satate_read_lem (codes "DXP2800 GT") (λ i. 0) (λ i. 0) on_stack

-- The slots of a board with two, the second one's disk being on.
two_slots :
    sata_satate_read (codes "DXP2800") 2 (all_mapped slots_of_four) (λ i. i * 2) (λ i. 0) on_stack
    ≡ (codes "SATA1", false) ∷ (codes "SATA2", true) ∷ []
unfolding sata_satate_read read_slots read_slot strcmp_eq
two_slots = refl
