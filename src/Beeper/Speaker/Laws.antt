-- ===== src/Beeper/Speaker/Laws.antt =====
-- When superio_write_byte returns and what it leaves in the controller's memory.
use ugreen_frontpanel.Base.{ℕ, zero, suc, ◌≡◌, refl, none, arith, ok}
use ugreen_frontpanel.Ec.Ports.{Ports}
use ugreen_frontpanel.Ec.Device.{IsController}
use ugreen_frontpanel.Beeper.Speaker.{check_status, write_round, write_rounds, superio_write_byte}

-- Whatever the status was, the loop over it ends without its error.
check_status_lem : (status : ℕ) → check_status 4 0 status ≡ ok tt
unfolding check_status
check_status_lem status = ground arith

-- `mdelay(1)` is as long as the controller stays busy after a byte, and changes nothing in it.
pub record IsPatient (hw : Ports) (ec : IsController hw) : Type 0 where
  pub delay_ready : (w : hw.World) → ec.wait (hw.mdelay 1 w) ≡ 0
  pub delay_phase : (w : hw.World) → ec.phase (hw.mdelay 1 w) ≡ ec.phase w
  pub delay_memory : (w : hw.World) → ec.memory (hw.mdelay 1 w) ≡ ec.memory w

write_rounds_hang :
    (hw : Ports) (rounds value addr : ℕ) (w : hw.World)
    → ((v : hw.World) → (hw.inb 0x62 v).0 ≡ 0xff)
    → write_rounds hw rounds value addr w ≡ none
unfolding write_rounds write_round
write_rounds_hang hw zero value addr w absent = refl
write_rounds_hang hw (suc rounds) value addr w absent =
    let w1 = hw.mdelay 1 (hw.outb 0x81 0x66 w) in
    let w2 = hw.mdelay 1 (hw.outb addr 0x62 w1) in
    let w3 = hw.mdelay 1 (hw.outb value 0x62 w2) in
    let w4 = hw.mdelay 1 (hw.outb 0x80 0x66 w3) in
    let w5 = hw.mdelay 1 (hw.outb addr 0x62 w4) in
    ground (arith, absent w5, write_rounds_hang hw rounds value addr (hw.inb 0x62 w5).1 absent)

-- Where every read of the data port gives 0xff, as from a device that is not there, no number of
-- rounds is enough: superio_write_byte does not return.
pub superio_write_byte_hangs :
    (hw : Ports) (rounds value addr : ℕ) (w : hw.World)
    → ((v : hw.World) → (hw.inb 0x62 v).0 ≡ 0xff)
    → superio_write_byte hw rounds value addr w ≡ none
unfolding superio_write_byte
superio_write_byte_hangs hw rounds value addr w absent = ground (
  arith,
  check_status_lem (hw.inb 0x66 w).0,
  write_rounds_hang hw rounds value addr (hw.inb 0x66 w).1 absent,
)
