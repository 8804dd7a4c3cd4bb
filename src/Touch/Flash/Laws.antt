-- ===== src/Touch/Flash/Laws.antt =====
-- What the flash holds after each routine, and what the read-back finds.
use ugreen_frontpanel.Base.{
  ℕ, zero, suc, ◌-◌, ◌≤◌, ◌<◌, ◌≡◌, refl, ap, ◌∙◌, Bool, true, List, [], ◌∷◌, arith, ◌==◌, length,
  pos, Bool-cases, inl, inr, sym, false,
}
use ugreen_frontpanel.Touch.Bus.{TouchHw, axs_write_bytes, axs_write_bytes_read_bytes}
use ugreen_frontpanel.Touch.Bus.Laws.{asked, axs_write_bytes-whole, transfer-whole}
use ugreen_frontpanel.Touch.Flash.{
  write_enable, ask_status, read_id, write_status, chip_erase, poll_flash, flash_is_ready,
  axs_fwupg_flash_init, axs_fwupg_flash_erase,
}
use ugreen_frontpanel.Touch.Flash.Device.{Memory, IsFlash, status_byte, Finishing}

idle-disabled : (busy : ℕ) (enabled : Bool) → Finishing busy enabled → busy ≡ 0 → enabled ≡ false
idle-disabled busy true f idle = absurd (omega (arith, f refl))
idle-disabled busy false f idle = refl

module _ (hw : TouchHw) (flash : IsFlash hw) where
  open hw use {World}
  open flash use {memory, enabled, busy, pending}

  -- The flash is ready, with the memory that it had.
  abbrev pub Settled : World → Bool × World → Type 0
  Settled w r = (r.0 ≡ true) × (busy r.1 ≡ 0) × (memory r.1 ≡ memory w)

  pub command :
      (bytes : List ℕ) (w : World)
      → 1 ≤ length bytes
      → length bytes < 1024
      → axs_write_bytes hw bytes w ≡ (pos (length bytes), asked hw bytes w)
  command bytes w some_byte small =
      axs_write_bytes-whole hw bytes w some_byte small (flash.sent bytes w)

  -- One poll of the status.
  poll :
      (b : ℕ) (w : World)
      → axs_write_bytes_read_bytes hw ask_status (b ∷ []) w ≡ (
        pos 1,
        status_byte (busy w) (enabled w) ∷ [],
        (hw.i2c_master_recv (b ∷ []) (asked hw ask_status w)).2,
      )
  poll b w =
      transfer-whole hw ask_status (b ∷ []) w (omega arith) (omega arith) (omega arith)
        (flash.sent ask_status w) (flash.received (b ∷ []) (asked hw ask_status w))
      ∙ rw
          (
            flash.status_value b (asked hw ask_status w) (flash.status_pending w),
            flash.status_busy w,
            flash.status_enabled w,
          )
          refl

  poll_flash-Settled :
      (rounds b : ℕ) (w : World)
      → busy w < rounds
      → Finishing (busy w) (enabled w)
      → let (last, w') = poll_flash hw rounds (b ∷ []) w in
        (last ≡ 0 ∷ []) × (busy w' ≡ 0) × (memory w' ≡ memory w)
  unfolding poll_flash
  poll_flash-Settled zero b w h f = absurd (omega arith)
  poll_flash-Settled (suc rounds) b w h f =
      let asked_w = asked hw ask_status w in
      let w' = (hw.i2c_master_recv (b ∷ []) asked_w).2 in
      let slept = hw.usleep_range 1000 1100 w' in
      let same : memory w' ≡ memory w =
        flash.recv_memory (b ∷ []) asked_w ∙ flash.status_memory w in
      let less : busy w' ≤ busy w - 1 =
        omega (arith, flash.recv_busy (b ∷ []) asked_w, flash.status_busy w) in
      let asked_f : Finishing (busy asked_w) (enabled asked_w) =
        λ on. omega (arith, flash.status_busy w, f (sym (flash.status_enabled w) ∙ on)) in
      let slept_f =
        flash.usleep_finishing 1000 1100 w' (flash.recv_finishing (b ∷ []) asked_w asked_f) in
      let next : 1 ≤ busy w
          → (v : ℕ)
          → let (last, w'') = poll_flash hw rounds (v ∷ []) slept in
            (last ≡ 0 ∷ []) × (busy w'' ≡ 0) × (memory w'' ≡ memory w) =
        λ some_busy v.
          let fewer : busy slept < rounds =
            omega (arith, less, h, some_busy, flash.usleep_busy 1000 1100 w') in
          let done = poll_flash-Settled rounds v slept fewer slept_f in
          (done.0, done.1, done.2 ∙ flash.usleep_memory 1000 1100 w' ∙ same) in
      elim (Bool-cases (busy w == 0)) [
        | inl ready ↦
            let off = idle-disabled (busy w) (enabled w) f (ground arith) in
            rw (poll b w, ready, off) (refl, ground (arith, less), same)
        | inr waits ↦
            let some_busy : 1 ≤ busy w = ground arith in
            elim (Bool-cases (enabled w)) [
              | inl on ↦ rw (poll b w, waits, on) (next some_busy 3)
              | inr off ↦ rw (poll b w, waits, off) (next some_busy 1)
            ]
      ]

  flash_is_ready_within :
      (rounds : ℕ) (w : World)
      → busy w < rounds
      → Finishing (busy w) (enabled w)
      → Settled w (flash_is_ready hw rounds w)
  unfolding flash_is_ready
  flash_is_ready_within rounds w h f =
      let polled = poll_flash-Settled rounds 255 w h f in rw polled.0 (refl, polled.1, polled.2)

  pub flash_is_ready-Settled :
      (w : World) → Finishing (busy w) (enabled w) → Settled w (flash_is_ready hw 2000 w)
  flash_is_ready-Settled w f = flash_is_ready_within 2000 w (omega (arith, flash.prompt w)) f

  -- A write enable, and the millisecond after it.
  pub enabled-Settled :
      (w : World)
      → busy w ≡ 0
      → let w' = asked hw write_enable w in
        (busy w' ≡ 0) × (enabled w' ≡ true) × (memory w' ≡ memory w)
  enabled-Settled w idle =
      (flash.enable_busy w idle, flash.enable_enabled w idle, flash.enable_memory w)

  abbrev pub paused : World → World
  paused w = hw.mdelay 1 w

  pub axs_fwupg_flash_erase_lem :
      (w : World)
      → busy w ≡ 0
      → let (done, w') = axs_fwupg_flash_erase hw w in
        (done ≡ true) × (busy w' ≡ 0) × ((b : ℕ) → memory w' b ≡ 255)
  unfolding axs_fwupg_flash_erase
  axs_fwupg_flash_erase_lem w idle =
      let w1 = paused (asked hw write_enable w) in
      let w2 = paused (asked hw chip_erase w1) in
      let idle1 : busy w1 ≡ 0 =
        omega (arith, flash.enable_busy w idle, flash.mdelay_busy 1 (asked hw write_enable w)) in
      let on1 : enabled w1 ≡ true =
        flash.mdelay_enabled 1 (asked hw write_enable w) (flash.enable_busy w idle)
        ∙ flash.enable_enabled w idle in
      let ready =
        flash_is_ready-Settled w2
          (flash.mdelay_finishing 1 (asked hw chip_erase w1) (flash.erase_finishing w1)) in
      rw
        (
          command write_enable w (omega arith) (omega arith),
          command chip_erase w1 (omega arith) (omega arith),
        )
        (
          ready.0,
          ready.1,
          λ b.
              ap (λ (m : Memory). m b) (ready.2 ∙ flash.mdelay_memory 1 (asked hw chip_erase w1))
              ∙ flash.erase_memory w1 b idle1 on1,
        )

  -- A transfer of a command and a buffer that are short enough.
  pub transfer :
      (cmd buf : List ℕ) (w : World)
      → 1 ≤ length cmd
      → length cmd < 1024
      → length buf < 1024
      → axs_write_bytes_read_bytes hw cmd buf w ≡ (
        pos (length buf),
        (hw.i2c_master_recv buf (asked hw cmd w)).1,
        (hw.i2c_master_recv buf (asked hw cmd w)).2,
      )
  transfer cmd buf w some_byte small small_buf =
      transfer-whole hw cmd buf w some_byte small small_buf (flash.sent cmd w)
        (flash.received buf (asked hw cmd w))

  pub axs_fwupg_flash_init-Settled : (w : World) → Settled w (axs_fwupg_flash_init hw w)
  unfolding axs_fwupg_flash_init
  axs_fwupg_flash_init-Settled w =
      let w1 = paused (asked hw write_enable w) in
      let named = hw.i2c_master_recv (0 ∷ []) (asked hw read_id w1) in
      let w2 = paused named.2 in
      let w3 = paused (asked hw write_enable w2) in
      let told = hw.i2c_master_recv named.1 (asked hw ask_status w3) in
      let w4 = paused told.2 in
      let w5 = paused (asked hw write_status w4) in
      let one : length named.1 ≡ 1 = flash.recv_length (0 ∷ []) (asked hw read_id w1) in
      let ready =
        flash_is_ready-Settled w5
          (flash.mdelay_finishing 1 (asked hw write_status w4) (flash.setting_finishing w4)) in
      let same : memory w5 ≡ memory w =
        flash.mdelay_memory 1 (asked hw write_status w4)
        ∙ flash.setting_memory w4
        ∙ flash.mdelay_memory 1 told.2
        ∙ flash.recv_memory named.1 (asked hw ask_status w3)
        ∙ flash.status_memory w3
        ∙ flash.mdelay_memory 1 (asked hw write_enable w2)
        ∙ flash.enable_memory w2
        ∙ flash.mdelay_memory 1 named.2
        ∙ flash.recv_memory (0 ∷ []) (asked hw read_id w1)
        ∙ flash.id_memory w1
        ∙ flash.mdelay_memory 1 (asked hw write_enable w)
        ∙ flash.enable_memory w in
      rw
        (
          command write_enable w (omega arith) (omega arith),
          transfer read_id (0 ∷ []) w1 (omega arith) (omega arith) (omega arith),
          command write_enable w2 (omega arith) (omega arith),
          transfer ask_status named.1 w3 (omega arith) (omega arith) (omega (arith, one)),
          command write_status w4 (omega arith) (omega arith),
        )
        (ready.0, ready.1, ready.2 ∙ same)
