-- ===== src/Touch/Registers.antt =====
-- The commands of the touch controller: packages/axs-touch/src/axs_core.c, from write_cmd to
-- axs_fwupg_get_ver_in_tp. The commands stand in buffers that the calls share.
pub mod Form
pub mod Laws
use ugreen_frontpanel.Base.{
  ℕ, zero, suc, ◌+◌, ◌/◌, ◌%◌, Bool, true, false, not, ◌||◌, List, [], ◌∷◌, ltb, ◌==◌,
  if◌then◌else◌, length, take, set, get_or, ℤ, pos, negsuc, is_negative, Option, none, some,
  replicate,
}
use ugreen_frontpanel.Touch.Bus.{TouchHw, axs_write_bytes, axs_write_bytes_read_bytes}

-- The globals write_cmd, read_cmd and read_sfr_cmd.
pub record Commands : Type 0 where
  pub write_cmd : List ℕ
  pub read_cmd : List ℕ
  pub read_sfr_cmd : List ℕ

abbrev pub initial_commands : Commands
initial_commands = record {
  write_cmd = 0xb5 ∷ 0xab ∷ 0x5a ∷ 0xa5 ∷ 0 ∷ 1 ∷ 0 ∷ 0 ∷ 0 ∷ 0 ∷ 0 ∷ 0xff ∷ replicate 10 0;
  read_cmd = 0xb5 ∷ 0xab ∷ 0xa5 ∷ 0x5a ∷ 0 ∷ 0 ∷ 0 ∷ 1 ∷ 0 ∷ 0 ∷ 0 ∷ [];
  read_sfr_cmd = 0x5a ∷ 0xa5 ∷ 0xab ∷ 0xb5 ∷ 0 ∷ 0 ∷ 0 ∷ 1 ∷ 0 ∷ 0x80 ∷ 0 ∷ [];
}

-- `memcpy(&buf[offset], bytes, n)` for the `n` bytes of `bytes`.
abbrev pub overwrite : ℕ → List ℕ → List ℕ → List ℕ
overwrite offset [] buf = buf
overwrite offset (b ∷ bytes) buf = overwrite (offset + 1) bytes (set buf offset b)

-- At most ten bytes of a register are sent.
abbrev pub clamp_len : ℕ → ℕ
clamp_len n = if ltb 10 n then 10 else n

-- `write_cmd` as axs_read_regs and axs_write_buf fill it.
unfoldable pub fill_write_cmd : List ℕ → List ℕ → List ℕ
fill_write_cmd reg buf =
    let n = clamp_len (length reg) in
    let sized = set (set buf 4 ((n + 1) / 256 % 256)) 5 ((n + 1) % 256) in
    set (overwrite 11 (take n reg) sized) (11 + n) 0

-- A read command with the count of bytes to read.
abbrev pub fill_read_cmd : ℕ → List ℕ → List ℕ
fill_read_cmd n buf = set (set buf 6 (n / 256 % 256)) 7 (n % 256)

module _ (hw : TouchHw) where
  open hw use {World}

  abbrev pub State : Type 0
  State = Commands × World

  -- axs_write_buf; what it returns is negative or 0.
  unfoldable pub axs_write_buf : List ℕ → State → ℤ × State
  axs_write_buf bytes (c, w) =
      let filled = fill_write_cmd bytes c.write_cmd in
      let (ret, w') = axs_write_bytes hw (take (12 + clamp_len (length bytes)) filled) w in
      (if is_negative ret then ret else pos 0, (record c { write_cmd = filled }, w'))

  -- axs_read_buf; `buf` is the buffer that is read into.
  unfoldable pub axs_read_buf : List ℕ → State → ℤ × List ℕ × State
  axs_read_buf [] s = (pos 0, [], s)
  axs_read_buf (b ∷ buf) (c, w) =
      let filled = fill_read_cmd (length (b ∷ buf)) c.read_cmd in
      let (ret, buf', w') = axs_write_bytes_read_bytes hw filled (b ∷ buf) w in
      (if is_negative ret then ret else pos 0, buf', (record c { read_cmd = filled }, w'))

  -- The code of axs_write_buf and of axs_read_buf stands in axs_read_regs again.
  unfoldable pub axs_read_regs : List ℕ → List ℕ → State → ℤ × List ℕ × State
  axs_read_regs reg buf s =
      let (ret, s') = axs_write_buf reg s in
      if is_negative ret then (ret, buf, s') else axs_read_buf buf s'

  unfoldable pub axs_read_sfr_reg : ℕ → List ℕ → State → ℤ × List ℕ × State
  axs_read_sfr_reg sfr_reg [] s = (negsuc 0, [], s)
  axs_read_sfr_reg sfr_reg (b ∷ buf) (c, w) =
      let filled = set (fill_read_cmd (length (b ∷ buf)) c.read_sfr_cmd) 10 sfr_reg in
      let (ret, buf', w') = axs_write_bytes_read_bytes hw filled (b ∷ buf) w in
      (if is_negative ret then ret else pos 0, buf', (record c { read_sfr_cmd = filled }, w'))

  -- axs_read_fw_version: the version, where it returns 0. `stack` is what its two bytes held.
  unfoldable pub axs_read_fw_version : ℕ → ℕ → State → Option ℕ × State
  axs_read_fw_version stack stack2 s =
      let (ret, first, s1) = axs_read_sfr_reg 0x89 (stack ∷ []) s in
      let (ret2, second, s2) = axs_read_sfr_reg 0x89 (stack2 ∷ []) s1 in
      if is_negative ret
      then (none, s1)
      else if is_negative ret2 || not (get_or first 0 0 == get_or second 0 0)
      then (none, s2)
      else (some (get_or second 0 0), s2)

  -- Its result is the version where it returns true.
  unfoldable pub axs_fwupg_get_ver_in_tp : ℕ → ℕ → State → Option ℕ × State
  axs_fwupg_get_ver_in_tp stack stack2 s = axs_read_fw_version stack stack2 s
