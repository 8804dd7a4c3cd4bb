-- ===== src/Touch/Upgrade/Flashed.antt =====
-- What axs_debug_fwupg leaves in the flash, and in the driver.
use ugreen_frontpanel.Base.{
  ℕ, ◌≤◌, ◌≡◌, refl, ap, ◌∙◌, true, false, not, ◌||◌, List, [], ◌∷◌, arith, ◌==◌, length, get_or,
  some, is_negative, Bool-cases, inl, inr,
}
use ugreen_frontpanel.Touch.Bus.{TouchHw}
use ugreen_frontpanel.Touch.Bus.Laws.{asked}
use ugreen_frontpanel.Touch.Registers.{
  Commands, State, axs_read_sfr_reg, axs_read_fw_version, axs_fwupg_get_ver_in_tp,
}
use ugreen_frontpanel.Touch.Registers.Form.{IsCommands}
use ugreen_frontpanel.Touch.Registers.Laws.{sfr_frame, axs_read_sfr_reg-afresh}
use ugreen_frontpanel.Touch.Flash.{axs_y15205_upgrade}
use ugreen_frontpanel.Touch.Flash.Device.{Memory, IsFlash}
use ugreen_frontpanel.Touch.Flash.Laws.{command, transfer}
use ugreen_frontpanel.Touch.Flash.Write.{AreBytes, Holds}
use ugreen_frontpanel.Touch.Flash.Upgrade.{axs_y15205_upgrade-Holds}
use ugreen_frontpanel.Touch.Power.{Driver, axs_irq_disable, axs_irq_enable}
use ugreen_frontpanel.Touch.Upgrade.{
  select_flash_cmd, Loading, select_flash, axs_reset_proc, axs_reset_and_lcd_init, upgrade_once,
  axs_fwupg_upgrade, axs_debug_fwupg, finish_load,
}
use ugreen_frontpanel.Touch.Upgrade.Laws.{load_firmware_runs}

module _ (hw : TouchHw) (flash : IsFlash hw) where
  open hw use {World}
  open flash use {memory}

  -- A read of the version changes no byte of the flash, and keeps the commands fit.
  abbrev Keeps : World → State hw → Type 0
  Keeps w s = (memory s.1 ≡ memory w) × IsCommands s.0

  sfr-Keeps :
      (b : ℕ) (c : Commands) (w : World)
      → IsCommands c
      → Keeps w (axs_read_sfr_reg hw 0x89 (b ∷ []) (c, w)).2
  sfr-Keeps b c w v =
      let read = axs_read_sfr_reg-afresh hw c 0x89 b [] w v in
      let cmd = sfr_frame hw 0x89 1 in
      let whole = transfer hw flash cmd (b ∷ []) w (omega arith) (omega arith) (omega arith) in
      (
        ap (λ t. memory t.2) read.0
            ∙ ap (λ t. memory t.2) whole
            ∙ flash.recv_memory (b ∷ []) (asked hw cmd w)
            ∙ flash.register_memory _ w,
        read.1,
      )

  version-Keeps :
      (stack stack2 : ℕ) (c : Commands) (w : World)
      → IsCommands c
      → Keeps w (axs_fwupg_get_ver_in_tp hw stack stack2 (c, w)).1
  unfolding axs_fwupg_get_ver_in_tp axs_read_fw_version
  version-Keeps stack stack2 c w v =
      let first = axs_read_sfr_reg hw 0x89 (stack ∷ []) (c, w) in
      let second = axs_read_sfr_reg hw 0x89 (stack2 ∷ []) first.2 in
      let one = sfr-Keeps stack c w v in
      let two = sfr-Keeps stack2 first.2.0 first.2.1 one.1 in
      let both : Keeps w second.2 = (two.0 ∙ one.0, two.1) in
      let unsure = is_negative second.0 || not (get_or first.1 0 0 == get_or second.1 0 0) in
      elim (Bool-cases (is_negative first.0)) [
        | inl refused ↦ rw refused one
        | inr read ↦ elim (Bool-cases unsure) [
          | inl e ↦ rw (read, e) both
          | inr e ↦ rw (read, e) both
        ]
      ]

  reset_memory : (ms : ℕ) (w : World) → memory (axs_reset_proc hw ms w) ≡ memory w
  unfolding axs_reset_proc
  reset_memory ms w =
      let w1 = hw.gpio_direction_output 1 w in
      let w2 = hw.usleep_range 1000 1100 w1 in
      let w3 = hw.gpio_set_value 0 w2 in
      let w4 = hw.usleep_range 10000 11000 w3 in
      let w5 = hw.gpio_set_value 1 w4 in
      let pulsed : memory w5 ≡ memory w =
        flash.value_memory 1 w4
        ∙ flash.usleep_memory 10000 11000 w3
        ∙ flash.value_memory 0 w2
        ∙ flash.usleep_memory 1000 1100 w1
        ∙ flash.direction_memory 1 w in
      elim (Bool-cases (ms == 0)) [
        | inl none_left ↦ rw none_left pulsed
        | inr some_left ↦ rw some_left (flash.msleep_memory ms w5 ∙ pulsed)
      ]

  lcd_init_memory :
      (d : Driver) (w : World) → memory (axs_reset_and_lcd_init hw (d, w)).1 ≡ memory w
  unfolding axs_reset_and_lcd_init
  lcd_init_memory d w = flash.msleep_memory 50 _ ∙ flash.msleep_memory 100 _ ∙ reset_memory 20 w

  -- The round that loads a firmware: it succeeds, and the flash has the firmware.
  upgrade_once-Holds :
      (l : Loading) (fw : List ℕ) (d : Driver) (w : World)
      → l.kzalloc ≡ true
      → AreBytes fw
      → length fw ≤ 16777216
      → IsCommands d.commands
      → let (done, (d', w')) = upgrade_once hw l fw (length fw) (d, w) in
        (done ≡ true) × Holds fw (length fw) (memory w')
  unfolding upgrade_once select_flash
  upgrade_once-Holds l fw d w allocated bytes small v =
      let w1 = hw.usleep_range 1000 1100 (asked hw select_flash_cmd w) in
      let done = axs_y15205_upgrade-Holds hw flash fw w1 bytes small in
      let w2 = (axs_y15205_upgrade hw true fw (length fw) w1).1 in
      let w3 = axs_reset_proc hw 100 w2 in
      let s4 = (axs_fwupg_get_ver_in_tp hw l.stack l.stack2 (d.commands, w3)).1 in
      let read = version-Keeps l.stack l.stack2 d.commands w3 v in
      rw (command hw flash select_flash_cmd w (omega arith) (omega arith), allocated, done.0)
        (
          refl,
          λ b.
              ap (λ (m : Memory). m b)
                (lcd_init_memory (record d { commands = s4.0 }) s4.1 ∙ read.0 ∙ reset_memory 100 w2)
              ∙ done.1 b,
        )

  disabled_commands : (d : Driver) → (axs_irq_disable d).commands ≡ d.commands
  unfolding axs_irq_disable
  disabled_commands d = ground arith

  enabled_irq : (d : Driver) → (axs_irq_enable d).irq_disabled ≡ false
  unfolding axs_irq_enable
  enabled_irq d = ground arith

  -- A load by hand of a firmware of bytes, from 1024 to 131072 of them, whose allocations succeed,
  -- returns: the flash ends with the firmware from address 0 on and 255 after it, and the driver with its
  -- interrupt enabled and no firmware loading.
  pub axs_debug_fwupg-Holds :
      (l : Loading) (fw : List ℕ) (d : Driver) (w : World)
      → l.fwupgrade ≡ true
      → l.firmware ≡ some fw
      → l.vmalloc ≡ true
      → l.kzalloc ≡ true
      → AreBytes fw
      → 1024 ≤ length fw
      → length fw ≤ 131072
      → IsCommands d.commands
      → (d' : Driver) × (w' : World) × (axs_debug_fwupg hw l (d, w) ≡ some (d', w'))
        × Holds fw (length fw) (memory w')
        × (d'.irq_disabled ≡ false)
        × (d'.fw_loading ≡ false)
  unfolding axs_debug_fwupg axs_fwupg_upgrade
  axs_debug_fwupg-Holds l fw d w there given room allocated bytes long short v =
      let start = axs_irq_disable (record d { fw_loading = true }) in
      let fit : IsCommands start.commands =
        rw (disabled_commands (record d { fw_loading = true })) v in
      let (done, s) = upgrade_once hw l fw (length fw) (start, w) in
      (
        (finish_load hw l s).0,
        s.1,
        load_firmware_runs hw l _ fw d w there given room long short,
        (upgrade_once-Holds l fw start w allocated bytes (omega arith) fit).1,
        enabled_irq s.0,
        refl,
      )
