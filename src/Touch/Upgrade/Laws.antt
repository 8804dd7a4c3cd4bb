-- ===== src/Touch/Upgrade/Laws.antt =====
-- What a firmware that is loaded by hand leaves behind.
use ugreen_frontpanel.Base.{
  ℕ, ◌≤◌, ◌≡◌, ◌↔◌, refl, ◌∙◌, true, false, List, [], arith, ltb, if◌then◌else◌, length, get_elem?,
  get_elem?-none, get_elem?-none_le, Option, none, some, Bool-cases, inl, inr,
}
use ugreen_frontpanel.Touch.Bus.{TouchHw}
use ugreen_frontpanel.Touch.Power.{Driver, TouchEvent, run, axs_irq_disable}
use ugreen_frontpanel.Touch.Power.Sleep.{IsStuck, stuck_run}
use ugreen_frontpanel.Touch.Upgrade.{
  failed, outside, version_byte, ver_offset, axs_fwupg_get_ver_in_bin, Loading, load_firmware,
  axs_debug_fwupg, axs_debug_download_app, download, finish_load,
}

version_byte-outside : (o : Option ℕ) → version_byte o ≡ outside → o ≡ none
version_byte-outside none h = refl
version_byte-outside (some v) h = cc

outside_at :
    (fw : List ℕ) (offset : ℕ)
    → ((if ltb (length fw) offset then failed else version_byte (get_elem? fw offset)) ≡ outside)
      ↔ (length fw ≡ offset)
outside_at fw offset = elim (Bool-cases (ltb (length fw) offset)) [
  | inl short ↦ (λ h. absurd (distinct (rw short at h)), λ e. absurd (ground arith))
  | inr long ↦ (
    λ h.
        let past : length fw ≤ offset =
          get_elem?-none_le fw offset (version_byte-outside (get_elem? fw offset) (rw long at h)) in
        ground arith,
    λ e. rw (long, get_elem?-none fw offset (omega arith)) refl,
  )
]
  where
    distinct : failed ≡ outside → ⊥
    distinct h = cc

-- A firmware that has its two bytes of offset is read past its end exactly where its length is the
-- offset of the version, which the test lets through.
pub axs_fwupg_get_ver_in_bin-outside_iff :
    (fw : List ℕ) (hi lo : ℕ)
    → get_elem? fw 0x0b ≡ some hi
    → get_elem? fw 0x0c ≡ some lo
    → (axs_fwupg_get_ver_in_bin fw (length fw) ≡ outside) ↔ (length fw ≡ ver_offset hi lo)
unfolding axs_fwupg_get_ver_in_bin
axs_fwupg_get_ver_in_bin-outside_iff fw hi lo h k =
    rw (h, k, axs_fwupg_get_ver_in_bin) (outside_at fw (ver_offset hi lo))

module _ (hw : TouchHw) (l : Loading) where
  open hw use {World}

  load_firmware_missing :
      (transfer : List ℕ → Driver × World → Driver × World) (d : Driver) (w : World)
      → l.fwupgrade ≡ true
      → l.firmware ≡ none
      → load_firmware hw l transfer (d, w)
        ≡ some (axs_irq_disable (record d { fw_loading = true }), w)
  unfolding load_firmware
  load_firmware_missing transfer d w there missing = ground arith

  pub load_firmware_runs :
      (transfer : List ℕ → Driver × World → Driver × World) (fw : List ℕ) (d : Driver) (w : World)
      → l.fwupgrade ≡ true
      → l.firmware ≡ some fw
      → l.vmalloc ≡ true
      → 1024 ≤ length fw
      → length fw ≤ 131072
      → load_firmware hw l transfer (d, w)
        ≡ some
            (finish_load hw l (transfer fw (axs_irq_disable (record d { fw_loading = true }), w)))
  unfolding load_firmware
  load_firmware_runs transfer fw d w there given room long short = ground arith

  disabled_loading : (d : Driver) → (axs_irq_disable d).fw_loading ≡ d.fw_loading
  unfolding axs_irq_disable
  disabled_loading d = ground arith

  disabled_suspended : (d : Driver) → (axs_irq_disable d).suspended ≡ d.suspended
  unfolding axs_irq_disable
  disabled_suspended d = ground arith

  -- Where vmalloc fails for a firmware that is there, both entry points read through NULL.
  pub axs_debug_fwupg_no_memory :
      (fw : List ℕ) (d : Driver) (w : World)
      → l.fwupgrade ≡ true
      → l.firmware ≡ some fw
      → l.vmalloc ≡ false
      → (axs_debug_fwupg hw l (d, w) ≡ none) × (axs_debug_download_app hw l (d, w) ≡ none)
  unfolding axs_debug_fwupg axs_debug_download_app load_firmware
  axs_debug_fwupg_no_memory fw d w there given full = ground arith

  -- Where request_firmware finds no firmware and the panel is not suspended, both entry points return
  -- with the driver as if a firmware were loading: whatever interrupts, screen events and resume works
  -- come after that, short of another load, the input layer is told nothing more.
  pub axs_debug_fwupg_missing :
      (vs : List (TouchEvent hw)) (d : Driver) (w : World)
      → l.fwupgrade ≡ true
      → l.firmware ≡ none
      → d.suspended ≡ false
      → (d' : Driver) × (axs_debug_fwupg hw l (d, w) ≡ some (d', w))
        × (axs_debug_download_app hw l (d, w) ≡ some (d', w))
        × ((run hw vs (d', w)).1 ≡ [])
  unfolding axs_debug_fwupg axs_debug_download_app
  axs_debug_fwupg_missing vs d w there missing awake =
      let d' = record d { fw_loading = true } in
      let stuck : IsStuck hw (axs_irq_disable d') = record {
        loading = disabled_loading d';
        awake = disabled_suspended d' ∙ awake;
      } in
      (
        axs_irq_disable d',
        load_firmware_missing _ d w there missing,
        load_firmware_missing (download hw l) d w there missing,
        (stuck_run hw vs (axs_irq_disable d') w stuck).0,
      )
