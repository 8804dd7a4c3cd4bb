-- ===== src/Beeper/Command.antt =====
-- The file /proc/nas/beeper in packages/ugreen-sio/ug_sataio_beeper.c: beeper_write and
-- beeper_read. The two calls of the kernel's `sscanf` are parameters, with `none` where they find
-- fewer numbers than asked for.
pub mod Laws
pub mod Boot
use ugreen_frontpanel.Base.{
  ℕ, zero, suc, ◌+◌, Bool, true, false, ◌&&◌, ◌||◌, not, List, Option, none, some, ltb, ◌==◌,
  if◌then◌else◌, bit_and, bit_or, codes, strncmp_eq, length, Ssize, count, error, fault, efault,
  einval,
}
use ugreen_frontpanel.ProcFile.{UserBuffer, line, refused, wild, copy_line}
use ugreen_frontpanel.Ec.Ports.{Ports}
use ugreen_frontpanel.Beeper.Timer.{Beeper, stop_timer, set_beeper}

abbrev pub delay_value : ℕ
delay_value = 200

-- `(!strncmp(buf, low, n)) || (!strncmp(buf, high, n))`
abbrev pub either_case : ℕ → List ℕ → List ℕ → List ℕ → Bool
either_case n buf low high = strncmp_eq n buf low || strncmp_eq n buf high

-- The test of a delay that was typed.
abbrev pub is_delay : ℕ → Bool
is_delay a = not (ltb a 20 || ltb 99999 a)

-- `if (0 == timerStatus) { ... add_timer(&beeper_timer); timerStatus = 1; }`
abbrev pub start_timer : Beeper → Beeper
start_timer b = if b.timer_status == 0 then record b { timer = some 100; timer_status = 1 } else b

-- The branch for `timer `.
unfoldable pub timer_command : Option (ℕ × ℕ) → ℕ → Beeper → Ssize × Beeper
timer_command none size b = (error efault, b)
timer_command (some (off, on)) size b =
    if is_delay off && is_delay on
    then (count size, start_timer (record b { delay_off = off; delay_on = on }))
    else (error efault, b)

-- The branch for `rep`.
unfoldable pub rep_command : Option (ℕ × ℕ × ℕ) → ℕ → Beeper → Ssize × Beeper
rep_command none size b = (error efault, b)
rep_command (some (times, off, on)) size b =
    if is_delay off && is_delay on
    then (count size, start_timer (record b { delay_off = off; delay_on = on; g_count = times }))
    else (error efault, b)

module _ (hw : Ports) (rounds : ℕ) (product : List ℕ) where
  open hw use {World, inb, outb}

  -- `outb(0x66, 0x70); outb(inb(0x71) & ~0x01, 0x71)`, and the same with `| 0x01`.
  unfoldable pub open_boot_beep : World → World
  open_boot_beep w = let (v, w') = inb 0x71 (outb 0x66 0x70 w) in outb (bit_and v 0xfe) 0x71 w'

  unfoldable pub close_boot_beep : World → World
  close_boot_beep w = let (v, w') = inb 0x71 (outb 0x66 0x70 w) in outb (bit_or v 0x01) 0x71 w'

  -- A branch that stops the timer and switches the beeper.
  unfoldable pub switch_command : ℕ → ℕ → ℕ → Beeper × World → Option (Ssize × Beeper × World)
  switch_command size dat delay (b, w) =
      elim (set_beeper hw rounds product dat delay (stop_timer b, w)) [
        | none ↦ none
        | some (b', w') ↦ some (count size, b', w')
      ]

  -- beeper_write once its input stands in `buf`.
  unfoldable pub beeper_command :
      (List ℕ → Option (ℕ × ℕ))
      → (List ℕ → Option (ℕ × ℕ × ℕ))
      → ℕ
      → List ℕ
      → Beeper × World
      → Option (Ssize × Beeper × World)
  unfolding timer_command rep_command
  beeper_command scan_timer scan_rep size buf (b, w) =
      if either_case 6 buf (codes "booton") (codes "BOOTON")
      then some (count size, b, open_boot_beep w)
      else if either_case 7 buf (codes "bootoff") (codes "BOOTOFF")
      then some (count size, b, close_boot_beep w)
      else if either_case 3 buf (codes "on") (codes "ON")
      then switch_command size 1 0 (b, w)
      else if either_case 4 buf (codes "off") (codes "OFF")
      then switch_command size 0 0 (b, w)
      else if either_case 4 buf (codes "one") (codes "ONE")
      then switch_command size 2 delay_value (b, w)
      else if strncmp_eq 6 buf (codes "timer ")
      then (let (r, b') = timer_command (scan_timer buf) size b in some (r, b', w))
      else if strncmp_eq 3 buf (codes "rep ")
      then (let (r, b') = rep_command (scan_rep buf) size b in some (r, b', w))
      else some (error einval, b, w)

  unfoldable pub beeper_write :
      (List ℕ → Option (ℕ × ℕ))
      → (List ℕ → Option (ℕ × ℕ × ℕ))
      → UserBuffer
      → Beeper × World
      → Option (Ssize × Beeper × World)
  beeper_write scan_timer scan_rep user (b, w) = elim (copy_line 32 user) [
    | line buf ↦ beeper_command scan_timer scan_rep (length user.bytes) buf (b, w)
    | refused e ↦ some (error e, b, w)
    | wild ↦ some (fault, b, w)
  ]

  -- beeper_read up to its text, without the line feed.
  unfoldable pub beeper_read : World → List ℕ × World
  beeper_read w =
      let (val, w') = inb 0x71 (outb 0x66 0x70 w) in
      (if bit_and val 0x01 == 0 then codes "booton" else codes "bootoff", w')
