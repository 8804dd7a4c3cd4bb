-- ===== src/Ec/Transfer.antt =====
-- What the helper functions achieve with a controller that keeps the protocol, and what they do
-- with one that stays busy.
use ugreen_frontpanel.Base.{ℕ, zero, suc, ◌<◌, ◌≡◌, arith, Result, ok, Ret}
use ugreen_frontpanel.Ec.Ports.{Ports}
use ugreen_frontpanel.Ec.Helper.{
  ec_c_port, poll_command_ready, poll_data_ready, ec_wait_command_ready, ec_wait_data_ready,
  ec_send_command, ec_send_data, ec_receive_data, ec_read_memory, ec_write_memory, ec_request_ports,
  ec_release_ports, ec_c_port,
}
use ugreen_frontpanel.Ec.Device.{
  Phase, read_value, Memory, store, on_command, on_data, IsController,
}

module _ (hw : Ports) (ec : IsController hw) where
  open ec use {phase, memory, wait}

  -- The wait ends with the controller ready, in the phase and with the memory that it had.
  record IsReady (w : hw.World) (r : Ret × hw.World) : Type 0 where
    done : r.0 ≡ ok tt
    ready : wait r.1 ≡ 0
    same_phase : phase r.1 ≡ phase w
    same_memory : memory r.1 ≡ memory w

  poll_command_ready-IsReady :
      (timeout : ℕ) (w : hw.World) → wait w < timeout → IsReady w (poll_command_ready hw timeout w)
  unfolding poll_command_ready
  poll_command_ready-IsReady zero w h = elim h [ ]
  poll_command_ready-IsReady (suc timeout) w h = ground (
    arith,
    ec.status_ibf w,
    ec.status_phase w,
    ec.status_memory w,
    ec.status_wait w,
    ec.sleep_phase 1 (hw.inb ec_c_port w).1,
    ec.sleep_memory 1 (hw.inb ec_c_port w).1,
    ec.sleep_wait 1 (hw.inb ec_c_port w).1,
    poll_command_ready-IsReady timeout (hw.msleep 1 (hw.inb ec_c_port w).1),
  )

  poll_data_ready-IsReady :
      (timeout : ℕ) (w : hw.World) (v : ℕ)
      → wait w < timeout
      → phase w ≡ read_value v
      → IsReady w (poll_data_ready hw timeout w)
  unfolding poll_data_ready
  poll_data_ready-IsReady zero w v h p = elim h [ ]
  poll_data_ready-IsReady (suc timeout) w v h p = ground (
    arith,
    ec.status_obf w,
    ec.status_phase w,
    ec.status_memory w,
    ec.status_wait w,
    ec.sleep_phase 1 (hw.inb ec_c_port w).1,
    ec.sleep_memory 1 (hw.inb ec_c_port w).1,
    ec.sleep_wait 1 (hw.inb ec_c_port w).1,
    poll_data_ready-IsReady timeout (hw.msleep 1 (hw.inb ec_c_port w).1) v,
  )

  -- A byte is taken: the call succeeds, with the controller in the given phase and memory.
  abbrev Reached : {A : Type 0} → A → Phase → Memory → Result A × hw.World → Type 0
  Reached a p m r = (r.0 ≡ ok a) × (phase r.1 ≡ p) × (memory r.1 ≡ m)

  ec_send_command-Reached :
      (c : ℕ) (w : hw.World) → Reached tt (on_command c) (memory w) (ec_send_command hw c w)
  unfolding ec_send_command ec_wait_command_ready
  ec_send_command-Reached c w =
      let waited = poll_command_ready hw 5 w in
      let ready = poll_command_ready-IsReady 5 w (omega (arith, ec.prompt w)) in
      ground (arith, ready, ec.command_phase c waited.1, ec.command_memory c waited.1)

  ec_send_data-Reached :
      (d : ℕ) (w : hw.World)
      → Reached tt
          (on_data d (phase w) (memory w)).0
          (on_data d (phase w) (memory w)).1
          (ec_send_data hw d w)
  unfolding ec_send_data ec_wait_command_ready
  ec_send_data-Reached d w =
      let waited = poll_command_ready hw 5 w in
      let ready = poll_command_ready-IsReady 5 w (omega (arith, ec.prompt w)) in
      ground (arith, ready, ec.data_phase d waited.1, ec.data_memory d waited.1)

  ec_receive_data_lem :
      (v : ℕ) (w : hw.World)
      → phase w ≡ read_value v
      → ((ec_receive_data hw w).0 ≡ ok v) × (memory (ec_receive_data hw w).1 ≡ memory w)
  unfolding ec_receive_data ec_wait_data_ready
  ec_receive_data_lem v w p =
      let waited = poll_data_ready hw 5 w in
      let ready = poll_data_ready-IsReady 5 w v (omega (arith, ec.prompt w)) p in
      ground (arith, ready, ec.value_read v waited.1, ec.value_memory waited.1)

  -- From any state of the controller a read returns the byte at the address, and changes none.
  pub ec_read_memory_lem :
      (a : ℕ) (w : hw.World)
      → ((ec_read_memory hw a w).0 ≡ ok (memory w a))
        × (memory (ec_read_memory hw a w).1 ≡ memory w)
  unfolding ec_read_memory
  ec_read_memory_lem a w =
      let sent = ec_send_command hw 0x80 w in
      let addressed = ec_send_data hw a sent.1 in
      ground (
        arith,
        ec_send_command-Reached 0x80 w,
        ec_send_data-Reached a sent.1,
        ec_receive_data_lem (memory w a) addressed.1,
      )

  -- From any state of the controller a write succeeds, stores the byte at the address and leaves
  -- the rest of the memory alone.
  pub ec_write_memory_lem :
      (a v : ℕ) (w : hw.World)
      → ((ec_write_memory hw a v w).0 ≡ ok tt)
        × (memory (ec_write_memory hw a v w).1 ≡ store (memory w) a v)
  unfolding ec_write_memory
  ec_write_memory_lem a v w =
      let sent = ec_send_command hw 0x81 w in
      let addressed = ec_send_data hw a sent.1 in
      ground (
        arith,
        ec_send_command-Reached 0x81 w,
        ec_send_data-Reached a sent.1,
        ec_send_data-Reached v addressed.1,
      )

  -- Taking and giving back the ports leaves the controller's memory alone.
  pub ec_request_ports-memory : (w : hw.World) → memory (ec_request_ports hw w).1 ≡ memory w
  unfolding ec_request_ports
  ec_request_ports-memory w = ec.request_memory ec_c_port w

  pub ec_release_ports-memory : (w : hw.World) → memory (ec_release_ports hw w).1 ≡ memory w
  unfolding ec_release_ports
  ec_release_ports-memory w = ec.release_memory ec_c_port w
