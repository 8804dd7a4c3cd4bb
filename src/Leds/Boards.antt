-- ===== src/Leds/Boards.antt =====
-- Products and their LEDs in packages/ugreen-leds-mcu/leds-mcu.c: leds_ugreen_probe,
-- iDX601x_led_init and ug_led_cdev_register, as far as they choose what is registered.
pub mod Laws
use ugreen_frontpanel.Base.{
  ℕ, zero, suc, ◌+◌, Bool, true, false, ◌||◌, ◌&&◌, List, [], ◌∷◌, Option, if◌then◌else◌, codes,
  strcmp_eq, get_elem?,
}
use ugreen_frontpanel.Leds.Bus.{Smbus}
use ugreen_frontpanel.Leds.Wire.{i2c_idx601x_write_led}
use ugreen_frontpanel.Leds.Device.{led_mode_light, led_mode_color, led_mode_switch, led_mode_blink}

-- The test of leds_ugreen_probe.
unfoldable pub is_supported : List ℕ → Bool
is_supported product =
    strcmp_eq product (codes "iDX6011")
    || strcmp_eq product (codes "DXP2800")
    || strcmp_eq product (codes "iDX6012")
    || strcmp_eq product (codes "DXP6800")
    || strcmp_eq product (codes "DXP6800S")
    || strcmp_eq product (codes "iDX6011 Pro")
    || strcmp_eq product (codes "DXP4800 GT")

-- The `led_count` that iDX601x_led_init sets; `old` is its value before.
unfoldable pub led_count : List ℕ → ℕ → ℕ
led_count product old =
    if strcmp_eq product (codes "DXP2800")
    then 4
    else if strcmp_eq product (codes "DXP6800") || strcmp_eq product (codes "DXP6800S")
    then 8
    else if strcmp_eq product (codes "iDX6011") || strcmp_eq product (codes "iDX6012")
    then 8
    else if strcmp_eq product (codes "iDX6011 Pro")
    then 9
    else if strcmp_eq product (codes "DXP4800 GT")
    then 6
    else old

abbrev pub dxp2800_led_name : List (List ℕ)
dxp2800_led_name = codes "power" ∷ codes "network_stat" ∷ codes "disk1" ∷ codes "disk2" ∷ []

abbrev pub dxp4800_gt_led_name : List (List ℕ)
dxp4800_gt_led_name =
    codes "power"
    ∷ codes "network_stat"
    ∷ codes "disk1"
    ∷ codes "disk2"
    ∷ codes "disk3"
    ∷ codes "disk4"
    ∷ []

-- The table of iDX6011_led_name, and of dxp6800_led_name, which is the same.
abbrev pub idx6011_led_name : List (List ℕ)
idx6011_led_name =
    codes "power"
    ∷ codes "network_stat"
    ∷ codes "disk1"
    ∷ codes "disk2"
    ∷ codes "disk3"
    ∷ codes "disk4"
    ∷ codes "disk5"
    ∷ codes "disk6"
    ∷ []

abbrev pub idx6011_pro_led_name : List (List ℕ)
idx6011_pro_led_name =
    codes "power"
    ∷ codes "network_stat"
    ∷ codes "network_stat2"
    ∷ codes "disk1"
    ∷ codes "disk2"
    ∷ codes "disk3"
    ∷ codes "disk4"
    ∷ codes "disk5"
    ∷ codes "disk6"
    ∷ []

-- The table of names that the loop of iDX601x_led_init reads; empty where it sets no name.
unfoldable pub led_names : List ℕ → List (List ℕ)
led_names product =
    if strcmp_eq product (codes "DXP6800") || strcmp_eq product (codes "DXP6800S")
    then idx6011_led_name
    else if strcmp_eq product (codes "DXP2800")
    then dxp2800_led_name
    else if strcmp_eq product (codes "iDX6011") || strcmp_eq product (codes "iDX6012")
    then idx6011_led_name
    else if strcmp_eq product (codes "iDX6011 Pro")
    then idx6011_pro_led_name
    else if strcmp_eq product (codes "DXP4800 GT")
    then dxp4800_gt_led_name
    else []

-- A device that is registered: its name, `none` where the loop would read past its table, and the
-- controller's address for it.
pub record Registered : Type 0 where
  pub name : Option (List ℕ)
  pub led_addr : ℕ

-- The loop of iDX601x_led_init from position `i` on, `left` rounds before its end.
unfoldable pub statuses_from : ℕ → ℕ → List ℕ → List Registered
statuses_from zero i product = []
statuses_from (suc left) i product =
    record { name = get_elem? (led_names product) i; led_addr = i }
    ∷ statuses_from left (i + 1) product

-- The loop of ug_led_cdev_register from position `i` on, which ends at the first device that the kernel
-- refuses: what it has registered. `register` is whether `led_classdev_register` takes the device at a
-- position.
unfoldable pub ug_led_cdev_register : (ℕ → Bool) → ℕ → List Registered → List Registered
ug_led_cdev_register register i [] = []
ug_led_cdev_register register i (d ∷ ds) =
    let rest = ug_led_cdev_register register (i + 1) ds in if register i then d ∷ rest else []

pub data ProbeResult : Type 0 where
  -- `return -1`
  refused : ProbeResult
  -- a write through a NULL pointer
  fault : ProbeResult
  running : List Registered → ProbeResult

-- leds_ugreen_probe: whether the reboot notifier is registered, whether either allocation of
-- iDX601x_led_init succeeds, and which devices the kernel takes, is given. The results of
-- iDX601x_led_init and of ug_led_cdev_register are ignored.
unfoldable pub leds_ugreen_probe : List ℕ → ℕ → Bool → Bool → Bool → (ℕ → Bool) → ProbeResult
leds_ugreen_probe product old notifier cdev_allocated status_allocated register =
    if is_supported product
    then (if notifier
        then (if cdev_allocated && status_allocated
            then running
                (ug_led_cdev_register register 0 (statuses_from (led_count product old) 0 product))
            else fault)
        else refused)
    else refused

module _ (bus : Smbus) where
  open bus use {World, msleep}

  -- The transfers at the end of iDX601x_led_init, with their results ignored.
  unfoldable pub led_init_writes : World → World
  led_init_writes w =
      let write = λ (mode : ℕ) (payload : List ℕ) (v : World).
        (i2c_idx601x_write_led bus 0 mode payload v).1 in
      let w1 = msleep 50 (write led_mode_blink (0 ∷ 0 ∷ 0 ∷ 0 ∷ []) w) in
      let w2 = msleep 50 (write led_mode_light (0xff ∷ 0 ∷ 0 ∷ 0 ∷ []) w1) in
      let w3 = msleep 50 (write led_mode_color (0xff ∷ 0xff ∷ 0xff ∷ 0 ∷ []) w2) in
      let w4 = write led_mode_switch (0xff ∷ 0 ∷ 0 ∷ 0 ∷ []) w3 in
      msleep 50 (write led_mode_light (0xff ∷ 0 ∷ 0 ∷ 0 ∷ []) w4)
