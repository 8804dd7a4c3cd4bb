-- ===== src/Touch/Upgrade.antt =====
-- packages/axs-touch/src/axs_upgrade.c and axs_download.c around the transfers: the check of the
-- version, axs_fwupg_upgrade, and the two entry points that axs_debug.c calls; and axs_esd.c's
-- axs_reset_and_lcd_init, for the configuration of axs_config.h. axs_lcd_off and axs_lcd_init are
-- empty.
pub mod Laws
pub mod Flashed
use ugreen_frontpanel.Base.{
  ℕ, ◌+◌, ◌*◌, Bool, true, false, not, ◌&&◌, ◌||◌, List, [], ◌∷◌, ltb, leb, ◌==◌, if◌then◌else◌,
  length, get_elem?, bit_or, Option, none, some, is_negative, Io,
}
use ugreen_frontpanel.Touch.Bus.{TouchHw, axs_write_bytes}
use ugreen_frontpanel.Touch.Registers.{Commands, axs_fwupg_get_ver_in_tp}
use ugreen_frontpanel.Touch.Flash.{axs_y15205_upgrade}
use ugreen_frontpanel.Touch.Download.{axs_download_app}
use ugreen_frontpanel.Touch.Power.{Driver, axs_irq_disable, axs_irq_enable}

abbrev pub axs_app_bin_ver_offset : ℕ
axs_app_bin_ver_offset = 0x5035

abbrev pub axs_max_fw_len : ℕ
axs_max_fw_len = 131072

abbrev pub select_flash_cmd : List ℕ
select_flash_cmd = 0xa5 ∷ 0x5a ∷ 0xb5 ∷ 0xab ∷ 0x00 ∷ []

-- What axs_fwupg_get_ver_in_bin does: `outside` is a read past the firmware's bytes.
pub data BinVersion : Type 0 where
  failed : BinVersion
  found : ℕ → BinVersion
  outside : BinVersion

abbrev pub version_byte : Option ℕ → BinVersion
version_byte none = outside
version_byte (some v) = found v

abbrev pub ver_offset : ℕ → ℕ → ℕ
ver_offset hi lo = bit_or (hi * 256) lo + axs_app_bin_ver_offset

unfoldable pub axs_fwupg_get_ver_in_bin : List ℕ → ℕ → BinVersion
axs_fwupg_get_ver_in_bin fw fw_length = elim (get_elem? fw 0x0b) [
  | none ↦ outside
  | some hi ↦ elim (get_elem? fw 0x0c) [
    | none ↦ outside
    | some lo ↦
        if ltb fw_length (ver_offset hi lo)
        then failed
        else version_byte (get_elem? fw (ver_offset hi lo))
  ]
]

-- The two versions, where both were read.
abbrev pub differs_in : ℕ → Option ℕ → Bool
differs_in in_bin none = false
differs_in in_bin (some in_tp) = not (in_tp == in_bin) && not (in_tp == 0)

-- What the calls that load a firmware find: whether `fwupgrade` is there or could be allocated, what
-- request_firmware gives, whether vmalloc and the kzalloc of the read-back succeed, and what the two
-- bytes of axs_read_fw_version hold before its reads.
pub record Loading : Type 0 where
  pub fwupgrade : Bool
  pub firmware : Option (List ℕ)
  pub vmalloc : Bool
  pub kzalloc : Bool
  pub stack : ℕ
  pub stack2 : ℕ

module _ (hw : TouchHw) where
  open hw use {World, gpio_direction_output, gpio_set_value, msleep, usleep_range}

  unfoldable pub select_flash : Io World Bool
  select_flash w =
      let (ret, w') = axs_write_bytes hw select_flash_cmd w in
      (if is_negative ret then false else true, usleep_range 1000 1100 w')

  unfoldable pub axs_reset_proc : ℕ → World → World
  axs_reset_proc hdelayms w =
      let pulsed = gpio_set_value 1 (
        usleep_range 10000 11000
          (gpio_set_value 0 (usleep_range 1000 1100 (gpio_direction_output 1 w)))) in
      if hdelayms == 0 then pulsed else msleep hdelayms pulsed

  unfoldable pub axs_reset_and_lcd_init : Driver × World → Driver × World
  axs_reset_and_lcd_init (d, w) =
      (axs_irq_enable (axs_irq_disable d), msleep 50 (msleep 100 (axs_reset_proc 20 w)))

module _ (hw : TouchHw) (l : Loading) where
  open hw use {World}

  -- axs_fwupg_need_upgrade, where `none` is a read past the firmware's bytes.
  unfoldable pub axs_fwupg_need_upgrade :
      List ℕ → ℕ → Commands × World → Option Bool × (Commands × World)
  axs_fwupg_need_upgrade fw fw_length s =
      let (in_tp, s') = axs_fwupg_get_ver_in_tp hw l.stack l.stack2 s in
      elim (axs_fwupg_get_ver_in_bin fw fw_length) [
        | failed ↦ (some false, s)
        | found in_bin ↦ (some (differs_in in_bin in_tp), s')
        | outside ↦ (none, s)
      ]

  -- The one round of the loop of axs_fwupg_upgrade.
  unfoldable pub upgrade_once : List ℕ → ℕ → Driver × World → Bool × (Driver × World)
  upgrade_once fw fw_length (d, w) =
      let (selected, w1) = select_flash hw w in
      let (done, w2) = axs_y15205_upgrade hw l.kzalloc fw fw_length w1 in
      let w3 = axs_reset_proc hw 100 w2 in
      let (commands, w4) = (axs_fwupg_get_ver_in_tp hw l.stack l.stack2 (d.commands, w3)).1 in
      if not selected
      then (false, (d, w1))
      else if done
      then (true, axs_reset_and_lcd_init hw (record d { commands = commands }, w4))
      else (false, axs_reset_and_lcd_init hw (d, w3))

  -- axs_fwupg_upgrade; `none` is a read past the firmware's bytes.
  unfoldable pub axs_fwupg_upgrade :
      List ℕ → ℕ → Bool → Driver × World → Option Bool × (Driver × World)
  axs_fwupg_upgrade fw fw_length debug (d, w) =
      let (need, (commands, w')) = axs_fwupg_need_upgrade fw fw_length (d.commands, w) in
      let (done, s') = upgrade_once fw fw_length (d, w) in
      let (done', s'') = upgrade_once fw fw_length (record d { commands = commands }, w') in
      if debug then (some done, s') else elim need [
        | none ↦ (none, (d, w))
        | some true ↦ (some done', s'')
        | some false ↦ (some false, (record d { commands = commands }, w'))
      ]

  -- What follows the label `err`.
  abbrev pub finish_load : Driver × World → Driver × World
  finish_load (d, w) = (record (axs_irq_enable d) { fw_loading = false }, w)

  -- The frame of axs_debug_fwupg and axs_debug_download_app, which differ in how the firmware is
  -- transferred. `none` is a read through NULL: where vmalloc fails the code sets `fw` to NULL, and
  -- reads `fw->size` after that.
  unfoldable pub load_firmware :
      (List ℕ → Driver × World → Driver × World) → Driver × World → Option (Driver × World)
  load_firmware transfer (d, w) =
      let start = axs_irq_disable (record d { fw_loading = true }) in
      if not l.fwupgrade then some (d, w) else elim l.firmware [
        | none ↦ some (start, w)
        | some fw ↦
            if not l.vmalloc
            then none
            else if ltb axs_max_fw_len (length fw) || ltb (length fw) 1024
            then some (finish_load (start, w))
            else some (finish_load (transfer fw (start, w)))
      ]

  unfoldable pub axs_debug_fwupg : Driver × World → Option (Driver × World)
  axs_debug_fwupg = load_firmware (λ fw s. (axs_fwupg_upgrade fw (length fw) true s).1)

  -- axs_download_app on the driver.
  abbrev pub download : List ℕ → Driver × World → Driver × World
  download fw (d, w) =
      let (done, (commands, w')) =
        axs_download_app hw l.stack l.stack2 fw (length fw) (d.commands, w) in
      (record d { commands = commands }, w')

  unfoldable pub axs_debug_download_app : Driver × World → Option (Driver × World)
  axs_debug_download_app = load_firmware download
