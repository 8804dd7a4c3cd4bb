-- ===== src/Touch/Download.antt =====
-- packages/axs-touch/src/axs_download.c, from selectPram to axs_Y15205_download: a firmware is sent to
-- the memory of the touch controller, whose check by reading is compiled out by
-- AXS_DOWNLOAD_READ_CHECK.
pub mod Laws
use ugreen_frontpanel.Base.{
  ℕ, zero, suc, ◌+◌, ◌-◌, ◌*◌, Bool, true, false, List, [], ◌∷◌, if◌then◌else◌, Option, none, some,
  is_negative, ℤ, Io,
}
use ugreen_frontpanel.Touch.Bus.{TouchHw, axs_write_bytes}
use ugreen_frontpanel.Touch.Packet.{packet_len, frame, total_packets, current_size, slice}
use ugreen_frontpanel.Touch.Registers.{Commands, State, axs_fwupg_get_ver_in_tp}

abbrev pub select_pram_cmd : List ℕ
select_pram_cmd = 0xa5 ∷ 0x5a ∷ 0xb5 ∷ 0xab ∷ 0x01 ∷ []

abbrev pub finish_cmd : List ℕ
finish_cmd = 0xab ∷ 0xb5 ∷ 0xa5 ∷ 0x5a ∷ 0 ∷ 0 ∷ 0 ∷ 0 ∷ []

module _ (hw : TouchHw) where
  open hw use {World, gpio_direction_output, usleep_range}

  -- axs_reset_level
  abbrev pub axs_reset_level : ℕ → World → World
  axs_reset_level level w = gpio_direction_output level w

  unfoldable pub select_pram : Io World Bool
  select_pram w =
      let w1 = axs_reset_level 1 (usleep_range 5000 5100 (axs_reset_level 0 w)) in
      let (ret, w2) = axs_write_bytes hw select_pram_cmd w1 in
      (if is_negative ret then false else true, usleep_range 1000 1100 w2)

  -- The loop of axs_download_write_pram, from packet `num` on, with `left` packets to go.
  unfoldable pub send_packets : ℕ → ℕ → ℕ → List ℕ → ℕ → Io World Bool
  send_packets zero num total fw_buf fw_len w = (true, w)
  send_packets (suc left) num total fw_buf fw_len w =
      let size = current_size num total fw_len in
      let addr = (num - 1) * packet_len in
      let (ret, w') = axs_write_bytes hw (frame size 0 addr (slice addr size fw_buf)) w in
      let rest = send_packets left (num + 1) total fw_buf fw_len w' in
      if is_negative ret then (false, w') else rest

  unfoldable pub axs_download_write_pram : List ℕ → ℕ → Io World Bool
  axs_download_write_pram fw_buf fw_len =
      let total = total_packets fw_len in send_packets total 1 total fw_buf fw_len

  unfoldable pub axs_download_finish : Io World Bool
  axs_download_finish w =
      let (ret, w') = axs_write_bytes hw finish_cmd w in
      (if is_negative ret then false else true, w')

-- `stack` and `stack2` are what the two bytes of axs_read_fw_version hold before its reads.
module _ (hw : TouchHw) (stack stack2 : ℕ) where
  open hw use {World, msleep}

  abbrev pub is_some : Option ℕ → Bool
  is_some none = false
  is_some (some v) = true

  unfoldable pub axs_y15205_download : List ℕ → ℕ → State hw → Bool × State hw
  axs_y15205_download fw_buf fw_len (c, w) =
      let (written, w1) = axs_download_write_pram hw fw_buf fw_len w in
      let (finished, w2) = axs_download_finish hw (msleep 20 w1) in
      let (version, s3) = axs_fwupg_get_ver_in_tp hw stack stack2 (c, msleep 20 w2) in
      if written
      then (if finished then (is_some version, s3) else (false, (c, w2)))
      else (false, (c, w1))

  -- The loop of axs_download_app, on the attempts that are left.
  unfoldable pub download_tries : ℕ → List ℕ → ℕ → State hw → Bool × State hw
  download_tries zero fw fw_length s = (false, s)
  download_tries (suc tries) fw fw_length (c, w) =
      let (selected, w1) = select_pram hw w in
      let (done, s2) = axs_y15205_download fw fw_length (c, w1) in
      let again = download_tries tries fw fw_length s2 in
      if selected then (if done then (true, s2) else again) else (false, (c, w1))

  unfoldable pub axs_download_app : List ℕ → ℕ → State hw → Bool × State hw
  axs_download_app fw fw_length s = download_tries 2 fw fw_length s
