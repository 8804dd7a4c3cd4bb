-- ===== src/Touch/Bus/Laws.antt =====
-- Transfers over a bus that carries whole messages.
use ugreen_frontpanel.Base.{ℕ, ◌≤◌, ◌<◌, ◌≡◌, List, length, pos, arith}
use ugreen_frontpanel.Touch.Bus.{TouchHw, axs_write_bytes, axs_write_bytes_read_bytes}

module _ (hw : TouchHw) where
  open hw use {World, i2c_master_send, i2c_master_recv}

  pub axs_write_bytes-whole :
      (bytes : List ℕ) (w : World)
      → 1 ≤ length bytes
      → length bytes < 1024
      → (i2c_master_send bytes w).0 ≡ pos (length bytes)
      → axs_write_bytes hw bytes w ≡ (pos (length bytes), (i2c_master_send bytes w).1)
  unfolding axs_write_bytes
  axs_write_bytes-whole bytes w some_byte small sent = ground arith

  -- The state between the two halves of a transfer, and the one after it.
  abbrev pub asked : List ℕ → World → World
  asked cmd w = (i2c_master_send cmd w).1

  pub transfer-whole :
      (cmd buf : List ℕ) (w : World)
      → 1 ≤ length cmd
      → length cmd < 1024
      → length buf < 1024
      → (i2c_master_send cmd w).0 ≡ pos (length cmd)
      → (i2c_master_recv buf (asked cmd w)).0 ≡ pos (length buf)
      → axs_write_bytes_read_bytes hw cmd buf w ≡ (
        pos (length buf),
        (i2c_master_recv buf (asked cmd w)).1,
        (i2c_master_recv buf (asked cmd w)).2,
      )
  unfolding axs_write_bytes_read_bytes
  transfer-whole cmd buf w some_byte small small_buf sent received = ground arith
