-- ===== src/Leds/Scan.antt =====
-- The search for the controller in packages/ugreen-leds-mcu/leds-mcu.c: leds_ugreen_detect and the
-- loop of ug_led_driver_init over the adapters.
pub mod Laws
use ugreen_frontpanel.Base.{
  ℕ, zero, suc, ◌+◌, ◌%◌, Bool, true, false, ◌||◌, ◌&&◌, not, List, Option, none, some, ◌==◌,
  if◌then◌else◌, codes, strncmp_eq, Io, Ret, Result, ok, err, enodev,
}

-- `i2c_smbus_read_word_data` on the chip's identity and `msleep`, for one client. The value is the
-- one that the code keeps, cut to 16 bits.
pub record ChipBus : Type 1 where
  pub World : Type 0
  pub read_word_data : ℕ → World → ℕ × World
  pub msleep : ℕ → World → World

abbrev pub mcu_chip_id : ℕ
mcu_chip_id = 0x5A

abbrev pub chip_id : ℕ
chip_id = 0xC5B2

module _ (bus : ChipBus) where
  open bus use {World, read_word_data, msleep}

  -- The loop of leds_ugreen_detect, on the reads that are left: whether the last read gave the
  -- identity.
  unfoldable pub read_chip_id : ℕ → Io World Bool
  read_chip_id zero w = (false, w)
  read_chip_id (suc tries) w =
      let (chipid, w') = read_word_data mcu_chip_id w in
      let again = read_chip_id tries (msleep 100 w') in
      if chipid % 65536 == chip_id then (true, w') else again

  unfoldable pub leds_ugreen_detect : Io World Ret
  leds_ugreen_detect w =
      let (found, w') = read_chip_id 3 w in (if found then ok tt else err enodev, w')

-- What the loop meets at an index: `none` where there is no adapter, else its name, whether a
-- client could be made on it, and whether leds_ugreen_detect accepts that client.
pub record Adapter : Type 0 where
  pub name : List ℕ
  pub client : Bool
  pub detects : Bool

-- One round of the loop: whether it ends the search.
unfoldable pub accepts : Option Adapter → Bool
accepts none = false
accepts (some a) =
    if not (strncmp_eq 5 (codes "SMBus") a.name) && not (strncmp_eq 8 (codes "Synopsys") a.name)
    then false
    else if a.client
    then a.detects
    else false

-- The loop from index `i` on, `left` rounds before its end: the index of the adapter whose client
-- is kept.
unfoldable pub scan_from : ℕ → ℕ → (ℕ → Option Adapter) → Option ℕ
scan_from zero i adapter = none
scan_from (suc left) i adapter =
    let rest = scan_from left (i + 1) adapter in if accepts (adapter i) then some i else rest

unfoldable pub scan : (ℕ → Option Adapter) → Option ℕ
unfolding scan_from
scan adapter = scan_from 99 0 adapter
