-- ===== src/Touch/Bus.antt =====
-- packages/axs-touch/src/axs_i2c.c, for the bus that axs_config.h chooses, and the calls of the kernel
-- that the touch driver makes on its hardware.
pub mod Laws
use ugreen_frontpanel.Base.{
  ℕ, zero, suc, Bool, true, false, ◌||◌, List, ltb, leb, ◌==◌, if◌then◌else◌, length, ℤ, pos,
  negsuc, Io,
}

-- The I2C client, the reset pin and the delays.
pub record TouchHw : Type 1 where
  pub World : Type 0
  -- `i2c_master_send(client, bytes, length)`
  pub i2c_master_send : List ℕ → World → ℤ × World
  -- `i2c_master_recv(client, buffer, length)`: from what the buffer holds to the result and what it
  -- holds after the call.
  pub i2c_master_recv : List ℕ → World → ℤ × List ℕ × World
  pub gpio_direction_output : ℕ → World → World
  pub gpio_set_value : ℕ → World → World
  pub msleep : ℕ → World → World
  pub mdelay : ℕ → World → World
  pub usleep_range : ℕ → ℕ → World → World

abbrev pub i2c_retry_number : ℕ
i2c_retry_number = 1

abbrev pub axs_cmd_max_write_buf_len : ℕ
axs_cmd_max_write_buf_len = 1024

abbrev pub axs_cmd_max_read_buf_len : ℕ
axs_cmd_max_read_buf_len = 1024

-- `-EINVAL`
abbrev pub invalid : ℤ
invalid = negsuc 21

abbrev pub is_int : ℕ → ℤ → Bool
is_int n (pos k) = k == n
is_int n (negsuc k) = false

module _ (hw : TouchHw) where
  open hw use {World, i2c_master_send, i2c_master_recv}

  -- The loop of axs_write_bytes, on the rounds that are left.
  unfoldable pub send_tries : ℕ → List ℕ → Io World ℤ
  send_tries zero bytes w = (invalid, w)
  send_tries (suc tries) bytes w =
      let (ret, w') = i2c_master_send bytes w in
      let again = send_tries tries bytes w' in
      if is_int (length bytes) ret then (ret, w') else again

  unfoldable pub axs_write_bytes : List ℕ → Io World ℤ
  unfolding send_tries
  axs_write_bytes bytes w =
      if length bytes == 0 || leb axs_cmd_max_write_buf_len (length bytes)
      then (invalid, w)
      else send_tries i2c_retry_number bytes w

  -- The loop of axs_read_bytes; `ret` is what the last round gave.
  unfoldable pub recv_tries : ℕ → ℤ → List ℕ → World → ℤ × List ℕ × World
  recv_tries zero ret buf w = (ret, buf, w)
  recv_tries (suc tries) ret buf w =
      let (ret', buf', w') = i2c_master_recv buf w in
      let again = recv_tries tries ret' buf' w' in
      if is_int (length buf) ret' then (ret', buf', w') else again

  unfoldable pub axs_read_bytes : List ℕ → World → ℤ × List ℕ × World
  unfolding recv_tries
  axs_read_bytes buf w =
      if leb axs_cmd_max_read_buf_len (length buf)
      then (invalid, buf, w)
      else recv_tries i2c_retry_number (pos 0) buf w

  -- The loop of axs_write_bytes_read_bytes.
  unfoldable pub transfer_tries : ℕ → ℤ → List ℕ → List ℕ → World → ℤ × List ℕ × World
  transfer_tries zero ret cmd buf w = (ret, buf, w)
  transfer_tries (suc tries) ret cmd buf w =
      let (sent, w1) = i2c_master_send cmd w in
      let unsent = transfer_tries tries sent cmd buf w1 in
      let w2 = if length cmd == 0 then w else w1 in
      let (ret', buf', w3) = i2c_master_recv buf w2 in
      let again = transfer_tries tries ret' cmd buf' w3 in
      if length cmd == 0 || is_int (length cmd) sent
      then (if is_int (length buf) ret' then (ret', buf', w3) else again)
      else unsent

  unfoldable pub axs_write_bytes_read_bytes : List ℕ → List ℕ → World → ℤ × List ℕ × World
  unfolding transfer_tries
  axs_write_bytes_read_bytes cmd buf w =
      if leb axs_cmd_max_write_buf_len (length cmd) || leb axs_cmd_max_read_buf_len (length buf)
      then (invalid, buf, w)
      else transfer_tries i2c_retry_number (pos 0) cmd buf w
