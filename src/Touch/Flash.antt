-- ===== src/Touch/Flash.antt =====
-- The flash behind the touch controller: packages/axs-touch/src/axs_upgrade.c, from flash_is_ready to
-- axs_Y15205_upgrade.
pub mod Device
pub mod Laws
pub mod Write
pub mod Check
pub mod Upgrade
use ugreen_frontpanel.Base.{
  ℕ, zero, suc, ◌+◌, ◌-◌, ◌*◌, ◌/◌, ◌%◌, Bool, true, false, ◌&&◌, not, List, [], ◌∷◌, ◌++◌, ◌==◌,
  if◌then◌else◌, get_or, take, drop, replicate, ℤ, is_negative, Io,
}
use ugreen_frontpanel.Touch.Bus.{TouchHw, axs_write_bytes, axs_write_bytes_read_bytes}
use ugreen_frontpanel.Touch.Packet.{
  packet_len, frame, total_packets, current_size, slice, memcmp_eq, unless_negative, unless_unread,
  unless_false,
}

-- The commands of the flash, as the code sends them.
abbrev pub write_enable : List ℕ
write_enable = frame 1 0 0 (0x06 ∷ [])

abbrev pub ask_status : List ℕ
ask_status = frame 1 1 0 (0x05 ∷ [])

abbrev pub read_id : List ℕ
read_id = frame 1 1 0 (0x9f ∷ [])

abbrev pub write_status : List ℕ
write_status = frame 2 0 0 (0x01 ∷ 0x02 ∷ [])

abbrev pub chip_erase : List ℕ
chip_erase = frame 1 0 0 (0xc7 ∷ [])

abbrev pub address_bytes : ℕ → List ℕ → List ℕ
address_bytes addr rest = (addr / 65536 % 256) ∷ (addr / 256 % 256) ∷ (addr % 256) ∷ rest

abbrev pub program_page : ℕ → ℕ → List ℕ → List ℕ
program_page size addr bytes = frame (size + 4) 0 0 (0x02 ∷ address_bytes addr bytes)

abbrev pub read_page : ℕ → ℕ → List ℕ
read_page size addr = frame 4 (size + 1) 0 (0x0b ∷ address_bytes addr [])

module _ (hw : TouchHw) where
  open hw use {World, msleep, mdelay, usleep_range}

  -- The loop of flash_is_ready, on the rounds that are left: the status byte that it ends with.
  unfoldable pub poll_flash : ℕ → List ℕ → Io World (List ℕ)
  poll_flash zero status w = (status, w)
  poll_flash (suc rounds) status w =
      let (ret, status', w') = axs_write_bytes_read_bytes hw ask_status status w in
      let rest = poll_flash rounds status' (usleep_range 1000 1100 w') in
      if not (is_negative ret) && get_or status' 0 0xff == 0 then (status', w') else rest

  unfoldable pub flash_is_ready : ℕ → Io World Bool
  flash_is_ready max_times w =
      let (status, w') = poll_flash max_times (0xff ∷ []) w in (get_or status 0 0xff == 0, w')

  -- A command after which the code waits a millisecond.
  abbrev pub command_then : List ℕ → Io World Bool → Io World Bool
  command_then bytes k = unless_negative (axs_write_bytes hw bytes) (λ w. k (mdelay 1 w))

  abbrev pub read_then : List ℕ → List ℕ → (List ℕ → Io World Bool) → Io World Bool
  read_then bytes buf k =
      unless_unread (axs_write_bytes_read_bytes hw bytes buf) (λ buf' w. k buf' (mdelay 1 w))

  unfoldable pub axs_fwupg_flash_init : Io World Bool
  axs_fwupg_flash_init = command_then write_enable (
      read_then read_id (0 ∷ []) (λ buf.
        command_then write_enable
          (read_then ask_status buf (λ _. command_then write_status (flash_is_ready 2000)))))

  unfoldable pub axs_fwupg_flash_erase : Io World Bool
  axs_fwupg_flash_erase = command_then write_enable (command_then chip_erase (flash_is_ready 2000))

  -- One round of the loop of axs_fwupg_flash_write.
  unfoldable pub write_packet : ℕ → ℕ → List ℕ → ℕ → Io World Bool
  write_packet num total fw_buf fw_len =
      let size = current_size num total fw_len in
      let addr = (num - 1) * packet_len in
      unless_negative (axs_write_bytes hw write_enable) (
        unless_negative (axs_write_bytes hw (program_page size addr (slice addr size fw_buf)))
          (flash_is_ready 2000))

  -- The loop from packet `num` on, with `left` packets to go.
  unfoldable pub write_packets : ℕ → ℕ → ℕ → List ℕ → ℕ → Io World Bool
  write_packets zero num total fw_buf fw_len w = (true, w)
  write_packets (suc left) num total fw_buf fw_len w =
      let (written, w') = write_packet num total fw_buf fw_len w in
      let rest = write_packets left (num + 1) total fw_buf fw_len w' in
      if written then rest else (false, w')

  unfoldable pub axs_fwupg_flash_write : List ℕ → ℕ → Io World Bool
  axs_fwupg_flash_write fw_buf fw_len =
      let total = total_packets fw_len in write_packets total 1 total fw_buf fw_len

  -- One round of the loop of axs_fwupg_flash_read_check; `tmpbuf` is handed on.
  unfoldable pub check_packet : ℕ → ℕ → List ℕ → ℕ → List ℕ → World → Bool × List ℕ × World
  check_packet num total fw fw_len tmpbuf w =
      let size = current_size num total fw_len in
      let addr = (num - 1) * packet_len in
      let (ret, buf, w') =
        axs_write_bytes_read_bytes hw (read_page size addr) (take (size + 1) tmpbuf) w in
      let tmpbuf' = buf ++ drop (size + 1) tmpbuf in
      (not (is_negative ret) && memcmp_eq size (drop addr fw) (drop 1 tmpbuf'), tmpbuf', w')

  unfoldable pub check_packets : ℕ → ℕ → ℕ → List ℕ → ℕ → List ℕ → Io World Bool
  check_packets zero num total fw fw_len tmpbuf w = (true, w)
  check_packets (suc left) num total fw fw_len tmpbuf w =
      let (same, tmpbuf', w') = check_packet num total fw fw_len tmpbuf w in
      let rest = check_packets left (num + 1) total fw fw_len tmpbuf' w' in
      if same then rest else (false, w')

  -- `allocated` is whether kzalloc gives `tmpbuf`; `fw` is the firmware of `fwupgrade`.
  unfoldable pub axs_fwupg_flash_read_check : Bool → List ℕ → ℕ → Io World Bool
  axs_fwupg_flash_read_check allocated fw fw_len w =
      let total = total_packets fw_len in
      if allocated
      then check_packets total 1 total fw fw_len (replicate (packet_len + 1) 0) w
      else (false, w)

  -- axs_fwupg_upgrade hands it the firmware of `fwupgrade`, with which it is compared.
  unfoldable pub axs_y15205_upgrade : Bool → List ℕ → ℕ → Io World Bool
  axs_y15205_upgrade allocated fw_buf fw_len = unless_false axs_fwupg_flash_init (
      unless_false axs_fwupg_flash_erase (
        unless_false (axs_fwupg_flash_write fw_buf fw_len)
          (λ w. axs_fwupg_flash_read_check allocated fw_buf fw_len (msleep 100 w))))
