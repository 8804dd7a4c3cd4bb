-- ===== src/Touch/Download/Laws.antt =====
-- What the memory of the touch controller holds after a download.
use ugreen_frontpanel.Base.{
  ℕ, zero, suc, ◌+◌, ◌-◌, ◌*◌, ◌≤◌, ◌<◌, ◌≡◌, refl, ap, subst, ◌∙◌, true, ◌&&◌, List, [], ◌∷◌,
  arith, ltb, leb, if◌then◌else◌, ◌==◌, length, get_or, ℤ, pos, is_negative, some, Bool-cases, inl,
  inr,
}
use ugreen_frontpanel.Touch.Bus.{TouchHw, axs_write_bytes}
use ugreen_frontpanel.Touch.Bus.Laws.{asked, axs_write_bytes-whole, transfer-whole}
use ugreen_frontpanel.Touch.Packet.{frame, total_packets, current_size, slice}
use ugreen_frontpanel.Touch.Packet.Laws.{
  current_size-IsPacket, cursor, cursor_next, cursor_start, slice-get_or, length-slice,
}
use ugreen_frontpanel.Touch.Registers.{
  Commands, State, axs_read_sfr_reg, axs_read_fw_version, axs_fwupg_get_ver_in_tp,
}
use ugreen_frontpanel.Touch.Registers.Form.{IsCommands}
use ugreen_frontpanel.Touch.Registers.Laws.{sfr_frame, axs_read_sfr_reg-afresh}
use ugreen_frontpanel.Touch.Download.{
  select_pram_cmd, finish_cmd, select_pram, send_packets, axs_download_write_pram,
  axs_download_finish, axs_y15205_download, download_tries, axs_download_app,
}

-- The controller's memory as the driver may rely on it. It is not in the repository, so this is a
-- list of hypotheses on the hardware: the bus carries whole messages, a packet is stored at its
-- address of 24 bits, the mark at the end and the reads of the version store nothing, and the
-- register 0x89 keeps its value.
pub record IsLoader (hw : TouchHw) : Type 0 where
  pub pram : hw.World → ℕ → ℕ
  pub version : ℕ
  pub sent : (bytes : List ℕ) (w : hw.World) → (hw.i2c_master_send bytes w).0 ≡ pos (length bytes)
  pub received : (buf : List ℕ) (w : hw.World) → (hw.i2c_master_recv buf w).0 ≡ pos (length buf)
  pub packet_stored :
      (size addr : ℕ) (bytes : List ℕ) (w : hw.World) (b : ℕ)
      → length bytes ≡ size
      → size ≤ 256
      → addr < 16777216
      → pram (hw.i2c_master_send (frame size 0 addr bytes) w).1 b
        ≡ (if leb addr b && ltb b (addr + size) then get_or bytes (b - addr) 0 else pram w b)
  pub finish_pram : (w : hw.World) → pram (hw.i2c_master_send finish_cmd w).1 ≡ pram w
  pub version_pram : (w : hw.World) → pram (hw.i2c_master_send (sfr_frame hw 0x89 1) w).1 ≡ pram w
  pub recv_pram : (buf : List ℕ) (w : hw.World) → pram (hw.i2c_master_recv buf w).2 ≡ pram w
  pub version_value :
      (b : ℕ) (w : hw.World)
      → (hw.i2c_master_recv (b ∷ []) (hw.i2c_master_send (sfr_frame hw 0x89 1) w).1).1
        ≡ version ∷ []
  pub msleep_pram : (n : ℕ) (w : hw.World) → pram (hw.msleep n w) ≡ pram w

module _ (hw : TouchHw) (loader : IsLoader hw) where
  open hw use {World}
  open loader use {pram, version}

  -- The first `n` bytes of the firmware are in place.
  abbrev pub Loaded : List ℕ → ℕ → World → Type 0
  Loaded fw n w = (b : ℕ) → b < n → pram w b ≡ get_or fw b 0

  send :
      (bytes : List ℕ) (w : World)
      → 1 ≤ length bytes
      → length bytes < 1024
      → axs_write_bytes hw bytes w ≡ (pos (length bytes), asked hw bytes w)
  send bytes w some_byte small =
      axs_write_bytes-whole hw bytes w some_byte small (loader.sent bytes w)

  packet-Loaded :
      (addr size : ℕ) (fw : List ℕ) (w : World)
      → size ≤ 256
      → addr < 16777216
      → addr + size ≤ length fw
      → Loaded fw addr w
      → Loaded fw (addr + size) (asked hw (frame size 0 addr (slice addr size fw)) w)
  packet-Loaded addr size fw w small low inside loaded b h =
      let whole : length (slice addr size fw) ≡ size = length-slice addr size fw inside in
      loader.packet_stored size addr (slice addr size fw) w b whole small low
      ∙ elim (Bool-cases (leb addr b && ltb b (addr + size))) [
        | inl within ↦
            let e : addr + (b - addr) ≡ b = ground arith in
            rw within
              (slice-get_or addr size fw (b - addr) (ground arith) ∙ ap (λ i. get_or fw i 0) e)
        | inr outside ↦ rw outside (loaded b (ground arith))
      ]

  send_packets-Loaded :
      (left num : ℕ) (fw : List ℕ) (w : World)
      → let total = total_packets (length fw) in
        length fw ≤ 16777216
        → 1 ≤ num
        → num + left ≡ total + 1
        → Loaded fw (cursor left num (length fw)) w
        → let (done, w') = send_packets hw left num total fw (length fw) w in
          (done ≡ true) × Loaded fw (length fw) w'
  unfolding send_packets
  send_packets-Loaded zero num fw w small first count loaded = (refl, loaded)
  send_packets-Loaded (suc left) num fw w small first count loaded =
      let size = current_size num (total_packets (length fw)) (length fw) in
      let addr = (num - 1) * 256 in
      let packet = current_size-IsPacket num (length fw) first (omega (arith, count)) in
      let payload = slice addr size fw in
      let whole : length payload ≡ size = length-slice addr size fw packet.inside in
      let w' = asked hw (frame size 0 addr payload) w in
      let one : Loaded fw (cursor left (num + 1) (length fw)) w' =
        subst (λ k. Loaded fw k w') (cursor_next left num (length fw) first (omega (arith, count)))
          (packet-Loaded addr size fw w packet.size_bound (omega (arith, packet.begins))
            packet.inside loaded) in
      rw
        (send (frame size 0 addr payload) w (omega arith) (omega (arith, whole, packet.size_bound)))
        (send_packets-Loaded left (num + 1) fw w' small (omega arith) (omega (arith, count)) one)

  -- A read of the version's register gives the version, and stores nothing.
  record IsRead (w : World) (r : ℤ × List ℕ × State hw) : Type 0 where
    done : r.0 ≡ pos 0
    value : r.1 ≡ version ∷ []
    same_pram : pram r.2.1 ≡ pram w
    fit : IsCommands r.2.0

  -- What axs_read_sfr_reg makes of a transfer.
  abbrev succeeded : ℤ × List ℕ × World → ℤ × List ℕ × World
  succeeded (ret, buf, w) = (if is_negative ret then ret else pos 0, buf, w)

  version-IsRead :
      (b : ℕ) (c : Commands) (w : World)
      → IsCommands c
      → IsRead w (axs_read_sfr_reg hw 0x89 (b ∷ []) (c, w))
  version-IsRead b c w v =
      let read = axs_read_sfr_reg-afresh hw c 0x89 b [] w v in
      let asked_w = asked hw (sfr_frame hw 0x89 1) w in
      let whole =
        transfer-whole hw (sfr_frame hw 0x89 1) (b ∷ []) w (omega arith) (omega arith) (omega arith)
          (loader.sent (sfr_frame hw 0x89 1) w) (loader.received (b ∷ []) asked_w) in
      let e = read.0 ∙ ap succeeded whole in
      record {
        done = ap (λ t. t.0) e;
        value = ap (λ t. t.1) e ∙ loader.version_value b w;
        same_pram =
            ap (λ t. pram t.2) e ∙ loader.recv_pram (b ∷ []) asked_w ∙ loader.version_pram w;
        fit = read.1;
      }

  version_lem :
      (stack stack2 : ℕ) (c : Commands) (w : World)
      → IsCommands c
      → let (found, (c', w')) = axs_fwupg_get_ver_in_tp hw stack stack2 (c, w) in
        (found ≡ some version) × (pram w' ≡ pram w) × IsCommands c'
  unfolding axs_fwupg_get_ver_in_tp axs_read_fw_version
  version_lem stack stack2 c w v =
      let first = version-IsRead stack c w v in
      let s1 = (axs_read_sfr_reg hw 0x89 (stack ∷ []) (c, w)).2 in
      let second = version-IsRead stack2 s1.0 s1.1 first.fit in
      let self : (version == version) ≡ true = ground arith in
      rw (first.done, first.value, second.done, second.value, self)
        (refl, second.same_pram ∙ first.same_pram, second.fit)

  axs_download_write_pram-Loaded :
      (fw : List ℕ) (w : World)
      → length fw ≤ 16777216
      → let (done, w') = axs_download_write_pram hw fw (length fw) w in
        (done ≡ true) × Loaded fw (length fw) w'
  unfolding axs_download_write_pram
  axs_download_write_pram-Loaded fw w small =
      send_packets-Loaded (total_packets (length fw)) 1 fw w small (omega arith) (omega arith)
        (λ b h. absurd (omega (arith, cursor_start (length fw))))

  axs_y15205_download-Loaded :
      (stack stack2 : ℕ) (fw : List ℕ) (c : Commands) (w : World)
      → length fw ≤ 16777216
      → IsCommands c
      → let (done, (c', w')) = axs_y15205_download hw stack stack2 fw (length fw) (c, w) in
        (done ≡ true) × Loaded fw (length fw) w' × IsCommands c'
  unfolding axs_y15205_download axs_download_finish
  axs_y15205_download-Loaded stack stack2 fw c w small v =
      let written = axs_download_write_pram-Loaded fw w small in
      let w1 = hw.msleep 20 (axs_download_write_pram hw fw (length fw) w).1 in
      let w2 = hw.msleep 20 (asked hw finish_cmd w1) in
      let read = version_lem stack stack2 c w2 v in
      let same : pram (axs_fwupg_get_ver_in_tp hw stack stack2 (c, w2)).1.1
          ≡ pram (axs_download_write_pram hw fw (length fw) w).1 =
        read.1
        ∙ loader.msleep_pram 20 (asked hw finish_cmd w1)
        ∙ loader.finish_pram w1
        ∙ loader.msleep_pram 20 (axs_download_write_pram hw fw (length fw) w).1 in
      rw (written.0, send finish_cmd w1 (omega arith) (omega arith), read.0)
        (refl, λ b h. ap (λ (m : ℕ → ℕ). m b) same ∙ written.1 b h, read.2)

  -- Whatever the memory of the controller holds, a download of a firmware within 24 bits of address
  -- succeeds, and leaves each byte of the firmware in its place.
  pub axs_download_app-Loaded :
      (stack stack2 : ℕ) (fw : List ℕ) (c : Commands) (w : World)
      → length fw ≤ 16777216
      → IsCommands c
      → let (done, (c', w')) = axs_download_app hw stack stack2 fw (length fw) (c, w) in
        (done ≡ true) × Loaded fw (length fw) w' × IsCommands c'
  unfolding axs_download_app download_tries select_pram
  axs_download_app-Loaded stack stack2 fw c w small v =
      let w1 =
        hw.gpio_direction_output 1 (hw.usleep_range 5000 5100 (hw.gpio_direction_output 0 w)) in
      let w2 = hw.usleep_range 1000 1100 (asked hw select_pram_cmd w1) in
      let done = axs_y15205_download-Loaded stack stack2 fw c w2 small v in
      rw (send select_pram_cmd w1 (omega arith) (omega arith), done.0) (refl, done.1, done.2)
