-- ===== src/Leds/Frame.antt =====
-- The bytes of a request to the controller and of its answer, with their checksums, in
-- i2c_iDX601x_write_led and i2c_iDX601x_read_led.
pub mod Laws
use ugreen_frontpanel.Base.{
  ℕ, ◌+◌, ◌*◌, ◌/◌, ◌%◌, Bool, List, [], ◌∷◌, ◌++◌, ◌==◌, bit_and, bit_or, take, get_or, map,
}

abbrev pub sum : List ℕ → ℕ
sum [] = 0
sum (b ∷ bs) = b + sum bs

-- `data[1]` to `data[9]` of the request.
abbrev pub request_head : ℕ → List ℕ → List ℕ
request_head status payload = 0xa0 ∷ 0x01 ∷ 0x00 ∷ 0x00 ∷ status ∷ payload

-- The two bytes of a checksum, the high one first.
abbrev pub crc_bytes : ℕ → List ℕ
crc_bytes crc_cnt = bit_and crc_cnt 0xff00 / 256 % 256 ∷ bit_and crc_cnt 0xff % 256 ∷ []

-- `data[1]` to `data[11]`: the block that is written behind the command `data[0]`. The payload is
-- `data1` to `data4`.
unfoldable pub request : ℕ → List ℕ → List ℕ
request status payload =
    request_head status payload ++ crc_bytes (sum (request_head status payload))

-- The test of the answer: the sum of `data[0]` to `data[8]` against `data[9] << 8 | data[10]`.
unfoldable pub is_intact : List ℕ → Bool
is_intact bytes = sum (take 9 bytes) == bit_or (get_or bytes 9 0 * 256) (get_or bytes 10 0)

-- What an answer says of an LED.
pub record Answer : Type 0 where
  pub light : ℕ
  pub status_data : ℕ
  pub red : ℕ
  pub green : ℕ
  pub blue : ℕ
  pub time : ℕ
  pub time_light : ℕ

unfoldable pub decode : List ℕ → Answer
decode bytes =
    let at = λ (i : ℕ). get_or bytes i 0 in
    record {
      light = at 1;
      status_data = bit_or (bit_or (at 2 * 65536) (at 3 * 256)) (at 4);
      red = at 2;
      green = at 3;
      blue = at 4;
      time = bit_or (at 5 * 256) (at 6);
      time_light = bit_or (at 7 * 256) (at 8);
    }
