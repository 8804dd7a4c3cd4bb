-- ===== src/Beeper/Command/Boot.antt =====
-- The beep at boot, a bit of a byte in the battery-backed memory behind the ports 0x70 and 0x71.
use ugreen_frontpanel.Base.{
  ℕ, ◌/◌, ◌*◌, ◌+◌, ◌%◌, ◌≤◌, ◌<◌, ◌≡◌, true, ◌||◌, List, Option, some, arith, ap, ◌∙◌, Bool-cases,
  inl, inr, ◌==◌, if◌then◌else◌, bit_and, bit_or, bit_and-one, bit_or-one, bit_and-clear_one_byte,
  codes, length, pad, count,
}
use ugreen_frontpanel.ProcFile.{UserBuffer, trim_newline, copy_line}
use ugreen_frontpanel.Ec.Ports.{Ports}
use ugreen_frontpanel.Ec.Device.{store}
use ugreen_frontpanel.Beeper.Timer.{Beeper}
use ugreen_frontpanel.Beeper.Command.{
  either_case, open_boot_beep, close_boot_beep, beeper_command, beeper_write, beeper_read,
}

-- The memory as its callers may rely on it: port 0x70 selects a byte, port 0x71 is that byte.
pub record IsCmos (hw : Ports) : Type 0 where
  pub cell : hw.World → ℕ → ℕ
  pub selected : hw.World → ℕ
  pub cell_bound : (w : hw.World) (i : ℕ) → cell w i < 256
  pub select_selected : (i : ℕ) (w : hw.World) → selected (hw.outb i 0x70 w) ≡ i
  pub select_cell : (i : ℕ) (w : hw.World) → cell (hw.outb i 0x70 w) ≡ cell w
  pub read_value : (w : hw.World) → (hw.inb 0x71 w).0 ≡ cell w (selected w)
  pub read_selected : (w : hw.World) → selected (hw.inb 0x71 w).1 ≡ selected w
  pub read_cell : (w : hw.World) → cell (hw.inb 0x71 w).1 ≡ cell w
  pub write_cell :
      (v : ℕ) (w : hw.World) → v < 256 → cell (hw.outb v 0x71 w) ≡ store (cell w) (selected w) v

module _ (hw : Ports) (cmos : IsCmos hw) (rounds : ℕ) (product : List ℕ) where
  open cmos use {cell}

  -- What reading the byte at 0x66 gives, and what it leaves for a write.
  fetch :
      (w : hw.World)
      → let u = hw.outb 0x66 0x70 w in
        ((hw.inb 0x71 u).0 ≡ cell w 0x66)
        × (cmos.selected (hw.inb 0x71 u).1 ≡ 0x66)
        × (cell (hw.inb 0x71 u).1 ≡ cell w)
  fetch w =
      let u = hw.outb 0x66 0x70 w in
      let chosen = cmos.select_selected 0x66 w in
      let same = cmos.select_cell 0x66 w in
      (
        cmos.read_value u ∙ ap (cell u) chosen ∙ ap (λ m. m 0x66) same,
        cmos.read_selected u ∙ chosen,
        cmos.read_cell u ∙ same,
      )

  put :
      (v x : ℕ) (u w : hw.World)
      → v ≡ x
      → x < 256
      → cmos.selected u ≡ 0x66
      → cell u ≡ cell w
      → cell (hw.outb v 0x71 u) ≡ store (cell w) 0x66 x
  put v x u w value small chosen same =
      cmos.write_cell v u (omega arith)
      ∙ ap (λ m. store m (cmos.selected u) v) same
      ∙ ap (λ i. store (cell w) i v) chosen
      ∙ ap (store (cell w) 0x66) value

  open_boot_beep-cell :
      (w : hw.World)
      → cell (open_boot_beep hw rounds product w) ≡ store (cell w) 0x66 (cell w 0x66 / 2 * 2)
  unfolding open_boot_beep
  open_boot_beep-cell w =
      let u = hw.inb 0x71 (hw.outb 0x66 0x70 w) in
      let got = fetch w in
      let bound = cmos.cell_bound w 0x66 in
      let value : bit_and u.0 0xfe ≡ cell w 0x66 / 2 * 2 =
        ap (λ v. bit_and v 0xfe) got.0 ∙ bit_and-clear_one_byte (cell w 0x66) bound in
      put (bit_and u.0 0xfe) (cell w 0x66 / 2 * 2) u.1 w value (omega arith) got.1 got.2

  close_boot_beep-cell :
      (w : hw.World)
      → cell (close_boot_beep hw rounds product w) ≡ store (cell w) 0x66 (cell w 0x66 / 2 * 2 + 1)
  unfolding close_boot_beep
  close_boot_beep-cell w =
      let u = hw.inb 0x71 (hw.outb 0x66 0x70 w) in
      let got = fetch w in
      let bound = cmos.cell_bound w 0x66 in
      let value : bit_or u.0 1 ≡ cell w 0x66 / 2 * 2 + 1 =
        ap (λ v. bit_or v 1) got.0 ∙ bit_or-one (cell w 0x66) in
      put (bit_or u.0 1) (cell w 0x66 / 2 * 2 + 1) u.1 w value (omega arith) got.1 got.2

  beeper_read_lem :
      (w : hw.World)
      → (beeper_read hw rounds product w).0
        ≡ (if cell w 0x66 % 2 == 0 then codes "booton" else codes "bootoff")
  unfolding beeper_read
  beeper_read_lem w = ground (arith, fetch w, bit_and-one (hw.inb 0x71 (hw.outb 0x66 0x70 w)).0)

  -- With a battery-backed memory that keeps its protocol: a text of 1 to 31 bytes that can be read
  -- and begins with `booton` or `bootoff`, in small or in capital letters, is taken whole and leaves the beeper's state as it was;
  -- beeper_read then gives that word back; and of the memory only the last bit of the byte at 0x66
  -- has changed.
  pub beeper_read-beeper_write :
      (scan_timer : List ℕ → Option (ℕ × ℕ)) (scan_rep : List ℕ → Option (ℕ × ℕ × ℕ))
      (user : UserBuffer) (b : Beeper) (w : hw.World)
      → user.readable ≡ true
      → 1 ≤ length user.bytes
      → length user.bytes ≤ 31
      → let buf = trim_newline (length user.bytes) (pad 32 user.bytes) in
        let on = either_case 6 buf (codes "booton") (codes "BOOTON") in
        let off = either_case 7 buf (codes "bootoff") (codes "BOOTOFF") in
        (on || off) ≡ true
        → (w' : hw.World) × (beeper_write hw rounds product scan_timer scan_rep user (b, w)
            ≡ some (count (length user.bytes), b, w'))
          × ((beeper_read hw rounds product w').0
              ≡ (if on then codes "booton" else codes "bootoff"))
          × (cell w' ≡ store (cell w) 0x66 (cell w 0x66 / 2 * 2 + (if on then 0 else 1)))
  unfolding beeper_write beeper_command copy_line
  beeper_read-beeper_write scan_timer scan_rep user b w readable some_bytes short word =
      let buf = trim_newline (length user.bytes) (pad 32 user.bytes) in
      let opened = open_boot_beep hw rounds product w in
      let closed = close_boot_beep hw rounds product w in
      let open_cell = open_boot_beep-cell w in
      let close_cell = close_boot_beep-cell w in
      let open_byte : cell opened 0x66 ≡ cell w 0x66 / 2 * 2 = ap (λ m. m 0x66) open_cell in
      let close_byte : cell closed 0x66 ≡ cell w 0x66 / 2 * 2 + 1 = ap (λ m. m 0x66) close_cell in
      elim (Bool-cases (either_case 6 buf (codes "booton") (codes "BOOTON"))) [
        | inl on ↦ (
          opened,
          ground (arith, on),
          ground (arith, on, open_byte, beeper_read_lem opened),
          ground (arith, on, open_cell),
        )
        | inr not_on ↦ (
          closed,
          ground (arith, not_on),
          ground (arith, not_on, close_byte, beeper_read_lem closed),
          ground (arith, not_on, close_cell),
        )
      ]
