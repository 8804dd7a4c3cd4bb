-- ===== src/Beeper/Speaker.antt =====
-- How packages/ugreen-sio/ug_sataio_beeper.c switches the beeper: superio_write_byte, which talks
-- to the embedded controller without its status flags, and the ports of the PC speaker.
pub mod Laws
use ugreen_frontpanel.Base.{
  ℕ, zero, suc, ◌+◌, Bool, true, false, ◌&&◌, ◌||◌, List, Option, none, some, ltb, ◌==◌,
  if◌then◌else◌, bit_and, bit_or, codes, strcmp_eq, eperm, ok, err, Ret,
}
use ugreen_frontpanel.Ec.Ports.{Ports}

abbrev pub beeper_adr_6011_pro : ℕ
beeper_adr_6011_pro = 0x9e

abbrev pub beeper_adr_6011 : ℕ
beeper_adr_6011 = 0xa5

-- The loop `while (i <= 3)` from `i` on, `left` rounds before its end. It never reads the status
-- again.
unfoldable pub check_status : ℕ → ℕ → ℕ → Ret
check_status zero i status = ok tt
check_status (suc left) i status =
    let rest = check_status left (i + 1) status in
    if bit_and status 0x01 == 0 then (if ltb 3 i then err eperm else rest) else ok tt

-- The value that is read back: 2 stands for 1 in the two bytes of the beeper.
abbrev pub read_back : ℕ → ℕ → ℕ → ℕ
read_back value addr tmp =
    if (addr == beeper_adr_6011 || addr == beeper_adr_6011_pro) && tmp == 2 && value == 1
    then 1
    else tmp

-- `!(tmp != value)`: `tmp` is a `char`, negative from 0x80 up, and `value` an unsigned one.
abbrev pub is_settled : ℕ → ℕ → ℕ → Bool
is_settled value addr tmp = read_back value addr tmp == value && ltb (read_back value addr tmp) 0x80

module _ (hw : Ports) where
  open hw use {World, inb, outb, mdelay}

  -- One round of the loop `do ... while (tmp != value)`: the byte read, and the world.
  unfoldable pub write_round : ℕ → ℕ → World → ℕ × World
  write_round value addr w =
      let w1 = mdelay 1 (outb 0x81 0x66 w) in
      let w2 = mdelay 1 (outb addr 0x62 w1) in
      let w3 = mdelay 1 (outb value 0x62 w2) in
      let w4 = mdelay 1 (outb 0x80 0x66 w3) in let w5 = mdelay 1 (outb addr 0x62 w4) in inb 0x62 w5

  -- The loop, for `rounds` rounds at most: `none` where it has not ended by then. The code has no
  -- limit.
  unfoldable pub write_rounds : ℕ → ℕ → ℕ → World → Option World
  write_rounds zero value addr w = none
  write_rounds (suc rounds) value addr w =
      let (tmp, w') = write_round value addr w in
      let again = write_rounds rounds value addr w' in
      if is_settled value addr tmp then some w' else again

  unfoldable pub superio_write_byte : ℕ → ℕ → ℕ → World → Option (Ret × World)
  superio_write_byte rounds value addr w =
      let (status, w') = inb 0x66 w in
      elim (check_status 4 0 status) [
        | err e ↦ some (err e, w')
        | ok u ↦ elim (write_rounds rounds value addr w') [
          | none ↦ none
          | some w'' ↦ some (ok tt, w'')
        ]
      ]

  unfoldable pub oem_override_beep_open : World → World
  oem_override_beep_open w =
      let w1 = outb 0x09 0x42 (outb 0x44 0x42 (outb 0xB6 0x43 w)) in
      let (value, w2) = inb 0x61 w1 in outb (bit_or value 3) 0x61 w2

  unfoldable pub oem_override_beep_close : World → World
  oem_override_beep_close w = let (value, w') = inb 0x61 w in outb (bit_and value 0xfc) 0x61 w'

  -- A write of the beeper's byte with its result ignored.
  unfoldable pub write_ignored : ℕ → ℕ → ℕ → World → Option World
  write_ignored rounds value addr w = elim (superio_write_byte rounds value addr w) [
    | none ↦ none
    | some r ↦ some r.1
  ]

  -- The beeper of a product, switched on or off.
  unfoldable pub switch_beeper : ℕ → List ℕ → Bool → World → Option World
  switch_beeper rounds product on w =
      if strcmp_eq product (codes "iDX6012") || strcmp_eq product (codes "iDX6011")
      then write_ignored rounds (if on then 1 else 0) beeper_adr_6011 w
      else if strcmp_eq product (codes "iDX6011 Pro")
      then write_ignored rounds (if on then 1 else 0) beeper_adr_6011_pro w
      else some (if on then oem_override_beep_open w else oem_override_beep_close w)
