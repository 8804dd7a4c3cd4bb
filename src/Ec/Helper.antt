-- ===== src/Ec/Helper.antt =====
-- packages/ugreen-sio/it55_helper.c and it55_helper.h: bytes to and from the embedded controller.
use ugreen_frontpanel.Base.{
  ℕ, zero, suc, bit_and, ◌==◌, if◌then◌else◌, Io, pure, ◌>>=◌, ◌>>◌, act, ebusy, etimedout, Result,
  ok, err, Ret, unless_err,
}
use ugreen_frontpanel.Ec.Ports.{Ports}

abbrev pub ec_d_port : ℕ
ec_d_port = 0x62

abbrev pub ec_c_port : ℕ
ec_c_port = 0x66

abbrev pub ec_s_ibf : ℕ
ec_s_ibf = 0x02

abbrev pub ec_s_obf : ℕ
ec_s_obf = 0x01

abbrev pub ec_c_read_mem : ℕ
ec_c_read_mem = 0x80

abbrev pub ec_c_write_mem : ℕ
ec_c_write_mem = 0x81

abbrev pub ec_timeout_us : ℕ
ec_timeout_us = 5

module _ (hw : Ports) where
  open hw use {World, inb, outb, msleep, request_muxed_region, release_region}

  unfoldable pub ec_read_status : Io World ℕ
  ec_read_status = inb ec_c_port

  -- The loop of `ec_wait_command_ready`, on the polls that are left.
  unfoldable pub poll_command_ready : ℕ → Io World Ret
  unfolding ec_read_status
  poll_command_ready zero w = (err etimedout, w)
  poll_command_ready (suc timeout) w =
      let (status, w') = ec_read_status w in
      let rest = poll_command_ready timeout (msleep 1 w') in
      if bit_and status ec_s_ibf == 0 then (ok tt, w') else rest

  unfoldable pub ec_wait_command_ready : Io World Ret
  ec_wait_command_ready = poll_command_ready ec_timeout_us

  -- The loop of `ec_wait_data_ready`.
  unfoldable pub poll_data_ready : ℕ → Io World Ret
  unfolding ec_read_status
  poll_data_ready zero w = (err etimedout, w)
  poll_data_ready (suc timeout) w =
      let (status, w') = ec_read_status w in
      let rest = poll_data_ready timeout (msleep 1 w') in
      if bit_and status ec_s_obf == 0 then rest else (ok tt, w')

  unfoldable pub ec_wait_data_ready : Io World Ret
  ec_wait_data_ready = poll_data_ready ec_timeout_us

  unfoldable pub ec_send_command : ℕ → Io World Ret
  ec_send_command command =
      unless_err ec_wait_command_ready λ _. act (outb command ec_c_port) >> pure (ok tt)

  unfoldable pub ec_send_data : ℕ → Io World Ret
  ec_send_data value =
      unless_err ec_wait_command_ready λ _. act (outb value ec_d_port) >> pure (ok tt)

  -- `ok v` stores `v` through the pointer; an error leaves the caller's variable alone.
  unfoldable pub ec_receive_data : Io World (Result ℕ)
  ec_receive_data = unless_err ec_wait_data_ready λ _. inb ec_d_port >>= λ value. pure (ok value)

  unfoldable pub ec_read_memory : ℕ → Io World (Result ℕ)
  ec_read_memory address =
      unless_err (ec_send_command ec_c_read_mem)
        λ _. unless_err (ec_send_data address) λ _. ec_receive_data

  unfoldable pub ec_write_memory : ℕ → ℕ → Io World Ret
  ec_write_memory address value =
      unless_err (ec_send_command ec_c_write_mem)
        λ _. unless_err (ec_send_data address) λ _. ec_send_data value

  unfoldable pub ec_request_ports : Io World Ret
  ec_request_ports w =
      let (granted, w') = request_muxed_region ec_c_port w in
      (if granted then ok tt else err ebusy, w')

  unfoldable pub ec_release_ports : Io World (Unit {0})
  ec_release_ports = act (release_region ec_c_port)
