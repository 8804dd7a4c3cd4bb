-- ===== src/Tests/Firmware.antt =====
-- Firmwares, a loader to download them to, and runs of the touch driver's transfers on them.
use ugreen_frontpanel.Base.{
  ℕ, zero, suc, ◌+◌, ◌-◌, ◌*◌, ◌/◌, ◌%◌, ◌≤◌, ◌<◌, ◌≡◌, ◌↔◌, refl, ap, true, false, ◌&&◌, List, [],
  ◌∷◌, arith, ltb, leb, ◌==◌, if◌then◌else◌, length, get_or, replicate, drop, pos, Option, none,
  some,
}
use ugreen_frontpanel.Touch.Bus.{TouchHw}
use ugreen_frontpanel.Touch.Packet.{frame}
use ugreen_frontpanel.Touch.Registers.{initial_commands}
use ugreen_frontpanel.Touch.Registers.Form.{IsCommands, initial_commands-IsCommands}
use ugreen_frontpanel.Touch.Flash.{axs_fwupg_flash_read_check, axs_y15205_upgrade}
use ugreen_frontpanel.Touch.Flash.Device.{other}
use ugreen_frontpanel.Touch.Flash.Write.{AreBytes, Holds}
use ugreen_frontpanel.Touch.Flash.Check.{axs_fwupg_flash_read_check_iff}
use ugreen_frontpanel.Touch.Flash.Upgrade.{axs_y15205_upgrade-Holds}
use ugreen_frontpanel.Touch.Download.{axs_download_app}
use ugreen_frontpanel.Touch.Download.Laws.{IsLoader, Loaded, axs_download_app-Loaded}
use ugreen_frontpanel.Touch.Power.{Driver, interrupt, blank, unblank, resume_runs, run}
use ugreen_frontpanel.Touch.Upgrade.{Loading, axs_debug_fwupg, axs_debug_download_app}
use ugreen_frontpanel.Touch.Upgrade.Laws.{axs_debug_fwupg_missing}
use ugreen_frontpanel.Touch.Upgrade.Flashed.{axs_debug_fwupg-Holds}
use ugreen_frontpanel.Tests.Nor.{Nor, nor, nor-IsFlash}

length-replicate : (n v : ℕ) → length (replicate n v) ≡ n
length-replicate zero v = refl
length-replicate (suc n) v = ap suc (length-replicate n v)

replicate-AreBytes : (n v : ℕ) → v < 256 → AreBytes (replicate n v)
replicate-AreBytes zero v h i = omega arith
replicate-AreBytes (suc n) v h zero = h
replicate-AreBytes (suc n) v h (suc i) = replicate-AreBytes n v h i

-- A flash full of zeros, that is busy.
abbrev worn : Nor
worn = record { memory = λ b. 0; enabled = false; busy = 2; pending = other }

-- Two packets, the second of 44 bytes.
abbrev small_fw : List ℕ
small_fw = replicate 300 7

axs_y15205_upgrade-Holds_example :
    let (done, w') = axs_y15205_upgrade nor true small_fw (length small_fw) worn in
    (done ≡ true) × Holds small_fw (length small_fw) w'.memory
axs_y15205_upgrade-Holds_example =
    axs_y15205_upgrade-Holds nor nor-IsFlash small_fw worn (replicate-AreBytes 300 7 (omega arith))
      (omega (arith, length-replicate 300 7))

axs_fwupg_flash_read_check_iff_example :
    let n = record worn { busy = 0 } in
    let (same, w') = axs_fwupg_flash_read_check nor true (1 ∷ 2 ∷ 3 ∷ []) 3 n in
    ((same ≡ true) ↔ ((b : ℕ) → b < 3 → n.memory b ≡ get_or (1 ∷ 2 ∷ 3 ∷ []) b 0))
    × (w'.memory ≡ n.memory)
axs_fwupg_flash_read_check_iff_example =
    axs_fwupg_flash_read_check_iff nor nor-IsFlash (1 ∷ 2 ∷ 3 ∷ []) (record worn { busy = 0 })
      (omega arith) refl

-- A controller whose memory takes packets, and whose version is 3.
abbrev Ram : Type 0
Ram = ℕ → ℕ

abbrev size_of : List ℕ → ℕ
size_of bytes = get_or bytes 4 0 * 256 + get_or bytes 5 0

abbrev address_of : List ℕ → ℕ
address_of bytes = get_or bytes 8 0 * 65536 + get_or bytes 9 0 * 256 + get_or bytes 10 0

abbrev place : ℕ → ℕ → List ℕ → Ram → Ram
place addr size bytes m b =
    if leb addr b && ltb b (addr + size) then get_or bytes (b - addr) 0 else m b

abbrev on_packet : List ℕ → Ram → Ram
on_packet bytes m =
    if get_or bytes 0 0 == 0xab
    then (if length bytes == 8
        then m
        else place (address_of bytes) (size_of bytes) (drop 11 bytes) m)
    else m

abbrev versions : List ℕ → List ℕ
versions [] = []
versions (b ∷ buf) = 3 ∷ versions buf

abbrev loader : TouchHw
loader = record {
  World = Ram;
  i2c_master_send = λ bytes m. (pos (length bytes), on_packet bytes m);
  i2c_master_recv = λ buf m. (pos (length buf), versions buf, m);
  gpio_direction_output = λ level m. m;
  gpio_set_value = λ level m. m;
  msleep = λ ms m. m;
  mdelay = λ ms m. m;
  usleep_range = λ low high m. m;
}

size-bytes : (n : ℕ) → n ≤ 256 → n / 256 % 256 * 256 + n % 256 ≡ n
size-bytes n h = omega arith

address-bytes : (a : ℕ) → a < 16777216 → a / 65536 % 256 * 65536 + a / 256 % 256 * 256 + a % 256 ≡ a
address-bytes a h = omega arith

packet_stored_at :
    (size addr : ℕ) (bytes : List ℕ) (m : Ram) (b : ℕ)
    → size ≤ 256
    → addr < 16777216
    → on_packet (frame size 0 addr bytes) m b ≡ place addr size bytes m b
packet_stored_at size addr bytes m b small low =
    let long : (length (frame size 0 addr bytes) == 8) ≡ false = ground arith in
    rw (long, size-bytes size small, address-bytes addr low) refl

abbrev loader-IsLoader : IsLoader loader
loader-IsLoader = record {
  pram = λ m. m;
  version = 3;
  sent = λ bytes m. refl;
  received = λ buf m. refl;
  packet_stored =
      λ size addr bytes m b whole small low. packet_stored_at size addr bytes m b small low;
  finish_pram = λ m. refl;
  version_pram = λ m. refl;
  recv_pram = λ buf m. refl;
  version_value = λ b m. refl;
  msleep_pram = λ n m. refl;
}

axs_download_app-Loaded_example :
    let (done, (c', w')) =
      axs_download_app loader 0 0 small_fw (length small_fw) (initial_commands, λ b. 0) in
    (done ≡ true) × Loaded loader loader-IsLoader small_fw (length small_fw) w' × IsCommands c'
axs_download_app-Loaded_example =
    axs_download_app-Loaded loader loader-IsLoader 0 0 small_fw initial_commands (λ b. 0)
      (omega (arith, length-replicate 300 7)) initial_commands-IsCommands

abbrev big_fw : List ℕ
big_fw = replicate 1500 7

abbrev driver : Driver
driver = record {
  commands = initial_commands;
  touch = record { events = []; touchs = 0; touch_point = 0 };
  fw_loading = false;
  irq_disabled = false;
  irq_depth = 0;
  suspended = false;
  resume_queued = false;
}

abbrev loading : Option (List ℕ) → Loading
loading firmware = record {
  fwupgrade = true;
  firmware = firmware;
  vmalloc = true;
  kzalloc = true;
  stack = 0;
  stack2 = 0;
}

axs_debug_fwupg-Holds_example :
    (d' : Driver) × (w' : Nor) × (axs_debug_fwupg nor (loading (some big_fw)) (driver, worn)
      ≡ some (d', w'))
    × Holds big_fw (length big_fw) w'.memory
    × (d'.irq_disabled ≡ false)
    × (d'.fw_loading ≡ false)
axs_debug_fwupg-Holds_example =
    axs_debug_fwupg-Holds nor nor-IsFlash (loading (some big_fw)) big_fw driver worn refl refl refl
      refl (replicate-AreBytes 1500 7 (omega arith)) (omega (arith, length-replicate 1500 7))
      (omega (arith, length-replicate 1500 7)) initial_commands-IsCommands

axs_debug_fwupg_missing_example :
    let vs = interrupt ∷ blank unblank ∷ resume_runs ∷ interrupt ∷ [] in
    (d' : Driver) × (axs_debug_fwupg nor (loading none) (driver, worn) ≡ some (d', worn))
    × (axs_debug_download_app nor (loading none) (driver, worn) ≡ some (d', worn))
    × ((run nor vs (d', worn)).1 ≡ [])
axs_debug_fwupg_missing_example =
    axs_debug_fwupg_missing nor (loading none)
      (interrupt ∷ blank unblank ∷ resume_runs ∷ interrupt ∷ []) driver worn refl refl refl
