-- ===== src/Touch/Flash/Upgrade.antt =====
-- What axs_Y15205_upgrade leaves in the flash.
use ugreen_frontpanel.Base.{ℕ, ◌≤◌, ◌≡◌, ap, ◌∙◌, true, List, arith, length}
use ugreen_frontpanel.Touch.Bus.{TouchHw}
use ugreen_frontpanel.Touch.Flash.{
  axs_fwupg_flash_init, axs_fwupg_flash_erase, axs_fwupg_flash_write, axs_y15205_upgrade,
}
use ugreen_frontpanel.Touch.Flash.Device.{Memory, IsFlash}
use ugreen_frontpanel.Touch.Flash.Laws.{axs_fwupg_flash_init-Settled, axs_fwupg_flash_erase_lem}
use ugreen_frontpanel.Touch.Flash.Write.{AreBytes, Holds, axs_fwupg_flash_write-Holds}
use ugreen_frontpanel.Touch.Flash.Check.{axs_fwupg_flash_read_check_iff}

module _ (hw : TouchHw) (flash : IsFlash hw) where
  open hw use {World}
  open flash use {memory, busy}

  -- From any state of the flash, and whatever it held, the upgrade with a firmware of bytes, within
  -- 24 bits of address, and with the buffer of the read-back allocated, succeeds, and leaves the firmware from address 0 on and 255 after it.
  pub axs_y15205_upgrade-Holds :
      (fw : List ℕ) (w : World)
      → AreBytes fw
      → length fw ≤ 16777216
      → let (done, w') = axs_y15205_upgrade hw true fw (length fw) w in
        (done ≡ true) × Holds fw (length fw) (memory w')
  unfolding axs_y15205_upgrade
  axs_y15205_upgrade-Holds fw w bytes small =
      let started = axs_fwupg_flash_init-Settled hw flash w in
      let w1 = (axs_fwupg_flash_init hw w).1 in
      let erased = axs_fwupg_flash_erase_lem hw flash w1 started.1 in
      let w2 = (axs_fwupg_flash_erase hw w1).1 in
      let written = axs_fwupg_flash_write-Holds hw flash fw w2 bytes small erased.1 erased.2 in
      let w3 = (axs_fwupg_flash_write hw fw (length fw) w2).1 in
      let w4 = hw.msleep 100 w3 in
      let held : Holds fw (length fw) (memory w4) =
        λ b. ap (λ (m : Memory). m b) (flash.msleep_memory 100 w3) ∙ written.2 b in
      let checked =
        axs_fwupg_flash_read_check_iff hw flash fw w4 small
          (omega (arith, written.1, flash.msleep_busy 100 w3)) in
      rw (started.0, erased.0, written.0)
        (
          checked.0.1 (λ b lt. ground (arith, held b)),
          λ b. ap (λ (m : Memory). m b) checked.1 ∙ held b,
        )
