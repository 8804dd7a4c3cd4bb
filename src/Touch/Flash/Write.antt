-- ===== src/Touch/Flash/Write.antt =====
-- What axs_fwupg_flash_write leaves in an erased flash.
use ugreen_frontpanel.Base.{
  ℕ, zero, suc, ◌+◌, ◌-◌, ◌*◌, ◌≤◌, ◌<◌, ◌≡◌, refl, ap, subst, ◌∙◌, true, ◌&&◌, List, arith, ltb,
  leb, if◌then◌else◌, length, get_or, bit_and-low_byte, Bool-cases, inl, inr,
}
use ugreen_frontpanel.Touch.Bus.{TouchHw}
use ugreen_frontpanel.Touch.Bus.Laws.{asked}
use ugreen_frontpanel.Touch.Packet.{total_packets, current_size, slice}
use ugreen_frontpanel.Touch.Packet.Laws.{
  current_size-IsPacket, cursor, cursor_next, cursor_start, slice-get_or, length-slice,
}
use ugreen_frontpanel.Touch.Flash.{
  write_enable, program_page, write_packet, write_packets, axs_fwupg_flash_write,
}
use ugreen_frontpanel.Touch.Flash.Device.{Memory, program, IsFlash}
use ugreen_frontpanel.Touch.Flash.Laws.{command, enabled-Settled, flash_is_ready-Settled}

-- The first `n` bytes of the firmware, in an erased flash.
abbrev pub Holds : List ℕ → ℕ → Memory → Type 0
Holds fw n m = (b : ℕ) → m b ≡ (if ltb b n then get_or fw b 0 else 255)

-- The firmware consists of bytes.
abbrev pub AreBytes : List ℕ → Type 0
AreBytes fw = (i : ℕ) → get_or fw i 0 < 256

program-Holds :
    (fw : List ℕ) (addr size : ℕ) (m : Memory)
    → AreBytes fw
    → addr + size ≤ length fw
    → Holds fw addr m
    → Holds fw (addr + size) (program addr (slice addr size fw) m)
program-Holds fw addr size m bytes inside held b =
    elim (Bool-cases (leb addr b && ltb b (addr + length (slice addr size fw)))) [
      | inl within ↦
          let e : addr + (b - addr) ≡ b = ground (arith, length-slice addr size fw inside) in
          rw within (
            ground (
              arith,
              held b,
              bytes b,
              length-slice addr size fw inside,
              slice-get_or addr size fw (b - addr),
              ap (λ i. get_or fw i 0) e,
              bit_and-low_byte (get_or fw b 0),
            ))
      | inr outside ↦ rw outside (ground (arith, held b, length-slice addr size fw inside))
    ]

module _ (hw : TouchHw) (flash : IsFlash hw) where
  open hw use {World}
  open flash use {memory, busy}

  -- A packet adds its bytes to what the flash holds.
  write_packet-Holds :
      (num : ℕ) (fw : List ℕ) (w : World)
      → let total = total_packets (length fw) in
        let size = current_size num total (length fw) in
        AreBytes fw
        → length fw ≤ 16777216
        → 1 ≤ num
        → num ≤ total
        → busy w ≡ 0
        → Holds fw ((num - 1) * 256) (memory w)
        → let (done, w') = write_packet hw num total fw (length fw) w in
          (done ≡ true) × (busy w' ≡ 0) × Holds fw ((num - 1) * 256 + size) (memory w')
  unfolding write_packet
  write_packet-Holds num fw w bytes small first within idle held =
      let total = total_packets (length fw) in
      let size = current_size num total (length fw) in
      let addr = (num - 1) * 256 in
      let packet = current_size-IsPacket num (length fw) first within in
      let payload = slice addr size fw in
      let whole : length payload ≡ size = length-slice addr size fw packet.inside in
      let w1 = asked hw write_enable w in
      let on = enabled-Settled hw flash w idle in
      let w2 = asked hw (program_page size addr payload) w1 in
      let ready =
        flash_is_ready-Settled hw flash w2 (flash.program_finishing size addr payload w1) in
      let stored : Holds fw (addr + size) (memory w2) = λ b.
        flash.program_memory size addr payload w1 b whole packet.size_bound
          (omega (arith, packet.begins)) (omega arith) on.0 on.1
        ∙ ap (λ (m : Memory). program addr payload m b) on.2
        ∙ program-Holds fw addr size (memory w) bytes packet.inside held b in
      rw
        (
          command hw flash write_enable w (omega arith) (omega arith),
          command hw flash (program_page size addr payload) w1 (omega arith)
              (omega (arith, whole, packet.size_bound)),
        )
        (ready.0, ready.1, λ b. ap (λ (m : Memory). m b) ready.2 ∙ stored b)

  write_packets-Holds :
      (left num : ℕ) (fw : List ℕ) (w : World)
      → let total = total_packets (length fw) in
        AreBytes fw
        → length fw ≤ 16777216
        → 1 ≤ num
        → num + left ≡ total + 1
        → busy w ≡ 0
        → Holds fw (cursor left num (length fw)) (memory w)
        → let (done, w') = write_packets hw left num total fw (length fw) w in
          (done ≡ true) × (busy w' ≡ 0) × Holds fw (length fw) (memory w')
  unfolding write_packets
  write_packets-Holds zero num fw w bytes small first count idle held = (refl, idle, held)
  write_packets-Holds (suc left) num fw w bytes small first count idle held =
      let total = total_packets (length fw) in
      let one = write_packet-Holds num fw w bytes small first (omega (arith, count)) idle held in
      let w' = (write_packet hw num total fw (length fw) w).1 in
      let at : Holds fw (cursor left (num + 1) (length fw)) (memory w') =
        subst (λ k. Holds fw k (memory w'))
          (cursor_next left num (length fw) first (omega (arith, count))) one.2 in
      rw one.0 (
        write_packets-Holds left (num + 1) fw w' bytes small (omega arith) (omega (arith, count))
          one.1 at)

  -- In an erased flash that is ready the write succeeds and leaves the firmware, with 255 after it.
  pub axs_fwupg_flash_write-Holds :
      (fw : List ℕ) (w : World)
      → AreBytes fw
      → length fw ≤ 16777216
      → busy w ≡ 0
      → ((b : ℕ) → memory w b ≡ 255)
      → let (done, w') = axs_fwupg_flash_write hw fw (length fw) w in
        (done ≡ true) × (busy w' ≡ 0) × Holds fw (length fw) (memory w')
  unfolding axs_fwupg_flash_write
  axs_fwupg_flash_write-Holds fw w bytes small idle erased =
      write_packets-Holds (total_packets (length fw)) 1 fw w bytes small (omega arith) (omega arith)
        idle (λ b. rw (cursor_start (length fw)) (ground (arith, erased b)))
