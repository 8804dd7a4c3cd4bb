-- ===== src/Leds/Wire/Laws.antt =====
-- When a transfer succeeds, and what it costs where it does not.
use ugreen_frontpanel.Base.{
  ℕ, zero, suc, ◌<◌, ◌≡◌, ◌⊎◌, inl, inr, refl, true, false, List, arith, is_negative, ok, err,
  ebusy,
}
use ugreen_frontpanel.Leds.Bus.{Smbus}
use ugreen_frontpanel.Leds.Frame.{request}
use ugreen_frontpanel.Leds.Wire.{
  mcu_receive_flags, is_one, send_block, wait_received, i2c_idx601x_write_led,
}

module _ (bus : Smbus) where
  open bus use {World, write_block_data, read_byte_data, read_i2c_block_data, msleep}

  -- The world after `n` writes of a block that failed, each with the pause behind it.
  abbrev pub after_failures : ℕ → ℕ → List ℕ → World → World
  after_failures zero select frame w = w
  after_failures (suc n) select frame w =
      after_failures n select frame (msleep 5 (write_block_data select frame w).1)

  -- The first `n` writes of a block fail.
  abbrev pub FailsTimes : ℕ → ℕ → List ℕ → World → Type 0
  FailsTimes zero select frame w = Unit
  FailsTimes (suc n) select frame w =
      (is_negative (write_block_data select frame w).0 ≡ true)
      × FailsTimes n select frame (msleep 5 (write_block_data select frame w).1)

  -- The same of the reads of the receive flag.
  abbrev pub after_waits : ℕ → World → World
  after_waits zero w = w
  after_waits (suc n) w = after_waits n (msleep 5 (read_byte_data mcu_receive_flags w).1)

  abbrev pub WaitsTimes : ℕ → World → Type 0
  WaitsTimes zero w = Unit
  WaitsTimes (suc n) w =
      (is_one (read_byte_data mcu_receive_flags w).0 ≡ false)
      × WaitsTimes n (msleep 5 (read_byte_data mcu_receive_flags w).1)

  send_block_fails :
      (n select : ℕ) (frame : List ℕ) (w : World)
      → FailsTimes n select frame w
      → send_block bus n select frame w ≡ (false, after_failures n select frame w)
  unfolding send_block
  send_block_fails zero select frame w h = refl
  send_block_fails (suc n) select frame w h =
      let w' = msleep 5 (write_block_data select frame w).1 in
      rw h.0 (send_block_fails n select frame w' h.1)

  send_block_retries :
      (n tries select : ℕ) (frame : List ℕ) (w : World)
      → n < tries
      → FailsTimes n select frame w
      → is_negative (write_block_data select frame (after_failures n select frame w)).0 ≡ false
      → send_block bus tries select frame w
        ≡ (true, (write_block_data select frame (after_failures n select frame w)).1)
  unfolding send_block
  send_block_retries n zero select frame w lt h good = absurd (omega arith)
  send_block_retries zero (suc tries) select frame w lt h good = rw good
  send_block_retries (suc n) (suc tries) select frame w lt h good =
      let w' = msleep 5 (write_block_data select frame w).1 in
      rw h.0 (send_block_retries n tries select frame w' (omega arith) h.1 good)

  wait_received_fails :
      (n : ℕ) (w : World) → WaitsTimes n w → wait_received bus n w ≡ (false, after_waits n w)
  unfolding wait_received
  wait_received_fails zero w h = refl
  wait_received_fails (suc n) w h =
      let w' = msleep 5 (read_byte_data mcu_receive_flags w).1 in
      rw h.0 (wait_received_fails n w' h.1)

  wait_received_retries :
      (n tries : ℕ) (w : World)
      → n < tries
      → WaitsTimes n w
      → is_one (read_byte_data mcu_receive_flags (after_waits n w)).0 ≡ true
      → wait_received bus tries w ≡ (true, (read_byte_data mcu_receive_flags (after_waits n w)).1)
  unfolding wait_received
  wait_received_retries n zero w lt h good = absurd (omega arith)
  wait_received_retries zero (suc tries) w lt h good = rw good
  wait_received_retries (suc n) (suc tries) w lt h good =
      let w' = msleep 5 (read_byte_data mcu_receive_flags w).1 in
      rw h.0 (wait_received_retries n tries w' (omega arith) h.1 good)

  -- The world once the block was written, after `n` failures.
  abbrev pub once_sent : ℕ → ℕ → List ℕ → World → World
  once_sent n select frame w = (write_block_data select frame (after_failures n select frame w)).1

  -- A write succeeds where at most two writes of its block fail before one that does not, and then
  -- at most two reads of the receive flag come before one that gives 1; the world has seen just
  -- these calls, each failed one followed by a pause of 5 ms.
  pub i2c_idx601x_write_led_retries :
      (n m select status : ℕ) (payload : List ℕ) (w : World)
      → n < 3
      → m < 3
      → FailsTimes n select (request status payload) w
      → is_negative
          (write_block_data select
            (request status payload)
            (after_failures n select (request status payload) w)).0
        ≡ false
      → WaitsTimes m (once_sent n select (request status payload) w)
      → is_one
          (read_byte_data mcu_receive_flags
            (after_waits m (once_sent n select (request status payload) w))).0
        ≡ true
      → i2c_idx601x_write_led bus select status payload w ≡ (
        ok 1,
        (read_byte_data mcu_receive_flags
            (after_waits m (once_sent n select (request status payload) w))).1,
      )
  unfolding i2c_idx601x_write_led
  i2c_idx601x_write_led_retries n m select status payload w nlt mlt fails sent waits got =
      let frame = request status payload in
      let u = (write_block_data select frame (after_failures n select frame w)).1 in
      ground (
        arith,
        send_block_retries n 3 select frame w nlt fails sent,
        wait_received_retries m 3 u mlt waits got,
      )

  -- Where three writes of its block fail, or where its block is out after fewer failures and three
  -- reads of the receive flag do not give 1, a write gives up with -EBUSY: it makes no call beyond
  -- these.
  pub i2c_idx601x_write_led_gives_up :
      (n select status : ℕ) (payload : List ℕ) (w : World)
      → FailsTimes 3 select (request status payload) w
        ⊎ ((n < 3)
            × FailsTimes n select (request status payload) w
            × (is_negative
                  (write_block_data select
                    (request status payload)
                    (after_failures n select (request status payload) w)).0
                ≡ false)
            × WaitsTimes 3 (once_sent n select (request status payload) w))
      → ((i2c_idx601x_write_led bus select status payload w).0 ≡ err ebusy)
        × (((i2c_idx601x_write_led bus select status payload w).1
              ≡ after_failures 3 select (request status payload) w)
            ⊎ ((i2c_idx601x_write_led bus select status payload w).1
                ≡ after_waits 3 (once_sent n select (request status payload) w)))
  unfolding i2c_idx601x_write_led
  i2c_idx601x_write_led_gives_up n select status payload w (inl fails) =
      let failed = send_block_fails 3 select (request status payload) w fails in
      (ground (arith, failed), inl (ground (arith, failed)))
  i2c_idx601x_write_led_gives_up n select status payload w (inr (lt, fails, sent, waits)) =
      let frame = request status payload in
      let out = send_block_retries n 3 select frame w lt fails sent in
      let waited = wait_received_fails 3 (once_sent n select frame w) waits in
      (ground (arith, out, waited), inr (ground (arith, out, waited)))
