-- ===== src/Touch/Debug.antt =====
-- The files of packages/axs-touch/src/axs_debug.c for the registers (axs_tprwreg_*, axs_proc_*).
pub mod Buffers
pub mod Calls
pub mod Closed
pub mod Firmware
pub mod Hex
pub mod Lists
pub mod Laws
pub mod Show
pub mod Table
pub mod Text
pub mod Version
use ugreen_frontpanel.Base.{
  ℕ, zero, suc, ◌+◌, ◌-◌, ◌*◌, ◌%◌, Bool, true, false, ◌||◌, not, List, [], ◌∷◌, ◌++◌, ltb, leb,
  ◌==◌, if◌then◌else◌, length, head_or_nul, take, drop, set, Option, none, some, ℤ, pos, negsuc,
  is_negative,
}
use ugreen_frontpanel.Touch.Bus.{
  TouchHw, axs_write_bytes, axs_write_bytes_read_bytes, axs_read_bytes, axs_cmd_max_write_buf_len,
  axs_cmd_max_read_buf_len, invalid,
}
use ugreen_frontpanel.Touch.Debug.Hex.{hex_to_u8}
use ugreen_frontpanel.Touch.Upgrade.{axs_reset_proc}

-- `debug_tx_buf` and `debug_rx_buf`, of 1024 bytes each, s_rd_len and `proc_opmode`.
pub record DebugState : Type 0 where
  pub tx : List ℕ
  pub rx : List ℕ
  pub rd_len : ℕ
  pub proc_opmode : ℕ

-- The loop that fills `debug_tx_buf` from the text at `offset`, from byte `i` on; `none` is a read
-- outside the text.
unfoldable pub fill_tx : ℕ → ℕ → ℕ → List ℕ → List ℕ → Option (List ℕ)
fill_tx zero i offset buf tx = some tx
fill_tx (suc left) i offset buf tx = elim (hex_to_u8 (offset + i * 2) buf) [
  | none ↦ none
  | some byte ↦ fill_tx left (i + 1) offset buf (set tx i byte)
]

module _ (hw : TouchHw) where
  open hw use {World}

  -- The parts of axs_tprwreg_store for `r` and for `w`, for a text `buf` with the NUL after it.
  unfoldable pub read_register : List ℕ → DebugState × World → Option (DebugState × World)
  read_register buf (d, w) = elim (hex_to_u8 1 buf) [
    | none ↦ none
    | some wt_len ↦ elim (hex_to_u8 3 buf) [
      | none ↦ none
      | some rd_len ↦ elim (fill_tx wt_len 0 5 buf d.tx) [
        | none ↦ none
        | some tx ↦
            let (ret, bytes, w') =
              axs_write_bytes_read_bytes hw (take wt_len tx) (take rd_len d.rx) w in
            some (record d { tx = tx; rx = bytes ++ drop rd_len d.rx; rd_len = rd_len }, w')
      ]
    ]
  ]

  unfoldable pub write_register : List ℕ → DebugState × World → Option (DebugState × World)
  write_register buf (d, w) = elim (hex_to_u8 1 buf) [
    | none ↦ none
    | some wt_len ↦ elim (fill_tx wt_len 0 3 buf d.tx) [
      | none ↦ none
      | some tx ↦
          let (ret, w') = axs_write_bytes hw (take wt_len tx) w in
          some (record d { tx = tx; rd_len = 0 }, w')
    ]
  ]

  -- axs_tprwreg_store returns `count` whatever it does. The text has a NUL after its `count` bytes;
  -- `none` is a read after that. The tests of the two lengths against 1024 are never met, for they
  -- have 8 bits.
  unfoldable pub axs_tprwreg_store : List ℕ → DebugState × World → Option (DebugState × World)
  axs_tprwreg_store text s =
      if ltb (length text) 3
      then some s
      else if head_or_nul text == b'w'
      then write_register (text ++ (0 ∷ [])) s
      else if head_or_nul text == b'r'
      then (if ltb (length text) 5 then some s else read_register (text ++ (0 ∷ [])) s)
      else some s

  -- axs_proc_write of `bytes`; `copied` is whether they could be copied from the user, where `bytes` is
  -- what the kernel then holds. What it returns is negative or the count. `writelen` is at most 1023.
  unfoldable pub axs_proc_write : Bool → List ℕ → DebugState × World → ℤ × (DebugState × World)
  axs_proc_write copied bytes (d, w) =
      let count = length bytes in
      let mode = head_or_nul bytes in
      let filled = record d { tx = bytes ++ drop count d.tx } in
      let d' = record filled { proc_opmode = mode } in
      let (ret, w') = axs_write_bytes hw (drop 1 bytes) w in
      if count == 0 || ltb axs_cmd_max_write_buf_len count
      then (invalid, (d, w))
      else if not copied
      then (negsuc 13, (filled, w))
      else if mode == b's'
      then (pos count, (d', axs_reset_proc hw 20 w))
      else if mode == b'r' || mode == b'w'
      then (if count == 1
          then (invalid, (d', w))
          else (if is_negative ret then ret else pos count, (d', w')))
      else (pos count, (d', w))

  -- axs_proc_read: what it returns, and the bytes that the user gets; `copied` is whether they can be
  -- copied.
  unfoldable pub axs_proc_read : ℕ → Bool → DebugState × World → ℤ × List ℕ × (DebugState × World)
  axs_proc_read count copied (d, w) =
      let (ret, buf, w') = axs_read_bytes hw (take count d.rx) w in
      let d' = record d { rx = buf ++ drop count d.rx } in
      if count == 0 || ltb axs_cmd_max_read_buf_len count
      then (invalid, [], (d, w))
      else if d.proc_opmode == b'r'
      then (if is_negative ret
          then (ret, [], (d', w'))
          else if copied
          then (pos count, buf, (d', w'))
          else (negsuc 13, [], (d', w')))
      else (invalid, [], (d, w))
