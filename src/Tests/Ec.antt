-- ===== src/Tests/Ec.antt =====
-- Transfers with a controller that answers and with one that does not.
use ugreen_frontpanel.Base.{ℕ, ◌*◌, ◌%◌, ◌≡◌, arith, true, ok, err, etimedout, suc}
use ugreen_frontpanel.Ec.Ports.{Ports}
use ugreen_frontpanel.Ec.Device.{idle, store}
use ugreen_frontpanel.Ec.Helper.{ec_read_memory, ec_write_memory}
use ugreen_frontpanel.Ec.Transfer.{ec_read_memory_lem, ec_write_memory_lem}
use ugreen_frontpanel.Ec.Timeout.{IsStuck, ec_memory_timeout}
use ugreen_frontpanel.Tests.Controller.{Chip, chip, chip-IsController}

abbrev pub start : Chip
start = record { phase = idle; memory = λ a. a * 7 % 256; busy = 2 }

ec_write_memory_lem_example :
    ((ec_write_memory chip 0xb1 90 start).0 ≡ ok tt)
    × ((ec_write_memory chip 0xb1 90 start).1.memory ≡ store start.memory 0xb1 90)
ec_write_memory_lem_example = ec_write_memory_lem chip chip-IsController 0xb1 90 start

ec_read_memory_lem_example :
    ((ec_read_memory chip 0xb1 start).0 ≡ ok 215)
    × ((ec_read_memory chip 0xb1 start).1.memory ≡ start.memory)
ec_read_memory_lem_example = ec_read_memory_lem chip chip-IsController 0xb1 start

-- A controller that is busy at every read; its world counts the reads.
abbrev jammed : Ports
jammed = record {
  World = ℕ;
  inb = λ port n. (2, suc n);
  outb = λ value port n. n;
  msleep = λ ms n. n;
  mdelay = λ ms n. n;
  request_muxed_region = λ port n. (true, n);
  release_region = λ port n. n;
}

abbrev jammed-IsStuck : IsStuck jammed
jammed-IsStuck = λ n. omega arith

ec_memory_timeout_example :
    (ec_write_memory jammed 0xb1 90 0 ≡ (err etimedout, 5))
    × (ec_read_memory jammed 0xb1 0 ≡ (err etimedout, 5))
ec_memory_timeout_example = ec_memory_timeout jammed jammed-IsStuck 0xb1 90 0
