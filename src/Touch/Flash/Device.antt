-- ===== src/Touch/Flash/Device.antt =====
-- The flash as the driver may rely on it: a serial NOR flash, whose commands the touch controller
-- hands on. Neither is in the repository, so this is a list of hypotheses on the hardware.
use ugreen_frontpanel.Base.{
  ℕ, ◌+◌, ◌-◌, ◌%◌, ◌≤◌, ◌<◌, ◌≡◌, Bool, true, List, [], ◌∷◌, ◌&&◌, length, get_or, pos, bit_and,
  ◌==◌, if◌then◌else◌, ltb, leb,
}
use ugreen_frontpanel.Touch.Bus.{TouchHw}
use ugreen_frontpanel.Touch.Flash.{
  write_enable, ask_status, read_id, write_status, chip_erase, program_page, read_page,
}

-- What the next read answers.
pub data Pending : Type 0 where
  other : Pending
  status : Pending
  page : ℕ → Pending

abbrev pub Memory : Type 0
Memory = ℕ → ℕ

-- A page program clears bits, and sets none.
abbrev pub program : ℕ → List ℕ → Memory → Memory
program addr bytes m b =
    if leb addr b && ltb b (addr + length bytes)
    then bit_and (get_or bytes (b - addr) 0) (m b)
    else m b

-- The status of a NOR flash: bit 0 while it is busy, bit 1 while a write is enabled.
abbrev pub status_byte : ℕ → Bool → ℕ
status_byte busy enabled = (if busy == 0 then 0 else 1) + (if enabled then 2 else 0)

-- A write that is enabled is under way: the flash takes the enable back when it is done.
abbrev pub Finishing : ℕ → Bool → Type 0
Finishing busy enabled = enabled ≡ true → 1 ≤ busy

-- The bus carries whole messages. The flash is busy for fewer than 2000 reads of its status after
-- an erase, a page program or a write of its status; any command but a read of the status counts
-- only where it is not busy; erase, program and write of the status count only after a write enable,
-- which is taken back when they are done; a page program takes at most 256 bytes from the start of a page, at 24 bits of address. A read gives one dummy
-- byte before the data.
pub record IsFlash (hw : TouchHw) : Type 0 where
  pub memory : hw.World → Memory
  pub enabled : hw.World → Bool
  pub busy : hw.World → ℕ
  pub pending : hw.World → Pending
  pub prompt : (w : hw.World) → busy w ≤ 1999
  pub sent : (bytes : List ℕ) (w : hw.World) → (hw.i2c_master_send bytes w).0 ≡ pos (length bytes)
  pub received : (buf : List ℕ) (w : hw.World) → (hw.i2c_master_recv buf w).0 ≡ pos (length buf)
  pub recv_memory : (buf : List ℕ) (w : hw.World) → memory (hw.i2c_master_recv buf w).2 ≡ memory w
  pub recv_busy : (buf : List ℕ) (w : hw.World) → busy (hw.i2c_master_recv buf w).2 ≤ busy w - 1
  pub status_memory : (w : hw.World) → memory (hw.i2c_master_send ask_status w).1 ≡ memory w
  pub status_busy : (w : hw.World) → busy (hw.i2c_master_send ask_status w).1 ≡ busy w
  pub status_pending : (w : hw.World) → pending (hw.i2c_master_send ask_status w).1 ≡ status
  pub status_value :
      (b : ℕ) (w : hw.World)
      → pending w ≡ status
      → (hw.i2c_master_recv (b ∷ []) w).1 ≡ status_byte (busy w) (enabled w) ∷ []
  pub status_enabled : (w : hw.World) → enabled (hw.i2c_master_send ask_status w).1 ≡ enabled w
  pub recv_finishing :
      (buf : List ℕ) (w : hw.World)
      → Finishing (busy w) (enabled w)
      → let w' = (hw.i2c_master_recv buf w).2 in Finishing (busy w') (enabled w')
  pub id_memory : (w : hw.World) → memory (hw.i2c_master_send read_id w).1 ≡ memory w
  pub enable_memory : (w : hw.World) → memory (hw.i2c_master_send write_enable w).1 ≡ memory w
  pub enable_busy : (w : hw.World) → busy w ≡ 0 → busy (hw.i2c_master_send write_enable w).1 ≡ 0
  pub enable_enabled :
      (w : hw.World) → busy w ≡ 0 → enabled (hw.i2c_master_send write_enable w).1 ≡ true
  pub setting_memory : (w : hw.World) → memory (hw.i2c_master_send write_status w).1 ≡ memory w
  pub setting_finishing :
      (w : hw.World)
      → let w' = (hw.i2c_master_send write_status w).1 in Finishing (busy w') (enabled w')
  pub erase_finishing :
      (w : hw.World)
      → let w' = (hw.i2c_master_send chip_erase w).1 in Finishing (busy w') (enabled w')
  pub program_finishing :
      (size addr : ℕ) (bytes : List ℕ) (w : hw.World)
      → let w' = (hw.i2c_master_send (program_page size addr bytes) w).1 in
        Finishing (busy w') (enabled w')
  pub erase_memory :
      (w : hw.World) (b : ℕ)
      → busy w ≡ 0
      → enabled w ≡ true
      → memory (hw.i2c_master_send chip_erase w).1 b ≡ 255
  pub program_memory :
      (size addr : ℕ) (bytes : List ℕ) (w : hw.World) (b : ℕ)
      → length bytes ≡ size
      → size ≤ 256
      → addr < 16777216
      → addr % 256 ≡ 0
      → busy w ≡ 0
      → enabled w ≡ true
      → memory (hw.i2c_master_send (program_page size addr bytes) w).1 b
        ≡ program addr bytes (memory w) b
  pub page_memory :
      (size addr : ℕ) (w : hw.World)
      → memory (hw.i2c_master_send (read_page size addr) w).1 ≡ memory w
  pub page_busy :
      (size addr : ℕ) (w : hw.World)
      → busy w ≡ 0
      → busy (hw.i2c_master_send (read_page size addr) w).1 ≡ 0
  pub page_pending :
      (size addr : ℕ) (w : hw.World)
      → size ≤ 256
      → addr < 16777216
      → busy w ≡ 0
      → pending (hw.i2c_master_send (read_page size addr) w).1 ≡ page addr
  pub recv_length : (buf : List ℕ) (w : hw.World) → length (hw.i2c_master_recv buf w).1 ≡ length buf
  pub page_value :
      (buf : List ℕ) (addr i : ℕ) (w : hw.World)
      → pending w ≡ page addr
      → i + 1 < length buf
      → get_or (hw.i2c_master_recv buf w).1 (i + 1) 0 ≡ memory w (addr + i)
  pub mdelay_memory : (n : ℕ) (w : hw.World) → memory (hw.mdelay n w) ≡ memory w
  pub mdelay_busy : (n : ℕ) (w : hw.World) → busy (hw.mdelay n w) ≤ busy w
  pub mdelay_enabled : (n : ℕ) (w : hw.World) → busy w ≡ 0 → enabled (hw.mdelay n w) ≡ enabled w
  pub mdelay_finishing :
      (n : ℕ) (w : hw.World)
      → Finishing (busy w) (enabled w)
      → let w' = hw.mdelay n w in Finishing (busy w') (enabled w')
  pub msleep_memory : (n : ℕ) (w : hw.World) → memory (hw.msleep n w) ≡ memory w
  pub msleep_busy : (n : ℕ) (w : hw.World) → busy (hw.msleep n w) ≤ busy w
  pub usleep_memory : (a b : ℕ) (w : hw.World) → memory (hw.usleep_range a b w) ≡ memory w
  pub usleep_busy : (a b : ℕ) (w : hw.World) → busy (hw.usleep_range a b w) ≤ busy w
  pub usleep_finishing :
      (a b : ℕ) (w : hw.World)
      → Finishing (busy w) (enabled w)
      → let w' = hw.usleep_range a b w in Finishing (busy w') (enabled w')
  -- The reset pin, and messages that are not for the flash.
  pub direction_memory :
      (level : ℕ) (w : hw.World) → memory (hw.gpio_direction_output level w) ≡ memory w
  pub value_memory : (level : ℕ) (w : hw.World) → memory (hw.gpio_set_value level w) ≡ memory w
  pub register_memory :
      (rest : List ℕ) (w : hw.World)
      → memory (hw.i2c_master_send (0x5a ∷ 0xa5 ∷ rest) w).1 ≡ memory w
