-- ===== src/Sio/Fan.antt =====
-- Fans, in packages/ugreen-sio/ug_it55pro_functions.c: set_sys_fan, set_cpu_fan, fan_write and
-- fan_read.
pub mod Laws
pub mod Memory
pub mod Requested
pub mod Stuck
use ugreen_frontpanel.Base.{
  ℕ, ◌+◌, ◌*◌, ◌%◌, Bool, true, false, ◌&&◌, ◌||◌, not, List, [], ◌∷◌, Option, none, some, ltb, leb,
  ◌==◌, if◌then◌else◌, drop, codes, strncasecmp_eq, Io, pure, ◌>>=◌, ◌>>◌, Result, ok, err, einval,
  Ssize, count, error, fault, length,
}
use ugreen_frontpanel.Ec.Ports.{Ports}
use ugreen_frontpanel.Ec.Helper.{
  ec_request_ports, ec_release_ports, ec_read_memory, ec_write_memory,
}
use ugreen_frontpanel.ProcFile.{UserBuffer, Copied, line, refused, wild, copy_line}

abbrev pub fan1_mode : ℕ
fan1_mode = 0xb0

abbrev pub fan1_pwm : ℕ
fan1_pwm = 0xb1

abbrev pub fan2_mode : ℕ
fan2_mode = 0xb2

abbrev pub fan2_pwm : ℕ
fan2_pwm = 0xb3

abbrev pub fan3_mode : ℕ
fan3_mode = 0xb4

abbrev pub fan3_pwm : ℕ
fan3_pwm = 0xb5

abbrev pub fan4_mode : ℕ
fan4_mode = 0xb6

abbrev pub fan4_pwm : ℕ
fan4_pwm = 0xb7

abbrev pub clamp_pwm : ℕ → ℕ
clamp_pwm pwm = if leb 0xc6 pwm then 0xc6 else pwm

-- `while ((*p < 0x21) && (*p != '\0')) p++;` where `char` is signed, as on x86: a byte from 0x80
-- up is negative, hence skipped too.
abbrev pub skip_blanks : List ℕ → List ℕ
skip_blanks [] = []
skip_blanks (b ∷ bs) = if (ltb b 0x21 || leb 0x80 b) && not (b == 0) then skip_blanks bs else b ∷ bs

abbrev pub is_empty_string : List ℕ → Bool
is_empty_string [] = true
is_empty_string (b ∷ bs) = b == 0

-- The speeds that fan_read prints.
pub record FanSpeeds : Type 0 where
  pub fan1 : ℕ
  pub fan2 : ℕ
  pub fan3 : ℕ
  pub fan4 : ℕ

-- `ec_read_memory(address, &tmp)` with its result ignored: on an error `tmp` stays as it was.
abbrev pub value_or : ℕ → Result ℕ → ℕ
value_or old (ok value) = value
value_or old (err e) = old

module _ (hw : Ports) where
  unfoldable pub set_sys_fan : ℕ → Io hw.World (Unit {0})
  set_sys_fan pwm =
      let duty = clamp_pwm pwm in
      ec_request_ports hw
      >> ec_write_memory hw fan3_mode 1
      >> ec_write_memory hw fan3_pwm duty
      >> ec_write_memory hw fan4_mode 1
      >> ec_write_memory hw fan4_pwm duty
      >> ec_release_ports hw

  unfoldable pub set_cpu_fan : ℕ → Io hw.World (Unit {0})
  set_cpu_fan pwm =
      let duty = clamp_pwm pwm in
      ec_request_ports hw
      >> ec_write_memory hw fan1_mode 1
      >> ec_write_memory hw fan1_pwm duty
      >> ec_write_memory hw fan2_mode 1
      >> ec_write_memory hw fan2_pwm duty
      >> ec_release_ports hw

  unfoldable pub read_into : ℕ → ℕ → Io hw.World ℕ
  read_into address old = ec_read_memory hw address >>= λ r. pure (value_or old r)

  -- The part of fan_write from the argument of `set ` or `cpu ` on: `p` is the text behind the
  -- word, `kstrtoul` the kernel's parser for base 10, with `none` where it reports an error.
  unfoldable pub set_fan_to :
      (List ℕ → Option ℕ) → (ℕ → Io hw.World (Unit {0})) → ℕ → List ℕ → Io hw.World Ssize
  set_fan_to kstrtoul set_fan size p =
      if is_empty_string (skip_blanks p)
      then pure (error einval)
      else elim (kstrtoul (skip_blanks p)) [
        | none ↦ pure (error einval)
        | some pwm ↦
            if ltb 0 pwm && ltb pwm 256
            then set_fan (pwm % 256) >> pure (count size)
            else pure (error einval)
      ]

  -- fan_write once its input stands in `buf`.
  unfoldable pub fan_command : (List ℕ → Option ℕ) → ℕ → List ℕ → Io hw.World Ssize
  fan_command kstrtoul size buf =
      if strncasecmp_eq 3 buf (codes "on")
      then set_sys_fan 127 >> pure (count size)
      else if strncasecmp_eq 4 buf (codes "off")
      then set_sys_fan 0 >> pure (count size)
      else if strncasecmp_eq 4 buf (codes "set ")
      then set_fan_to kstrtoul set_sys_fan size (drop 4 buf)
      else if strncasecmp_eq 3 buf (codes "con")
      then set_cpu_fan 127 >> pure (count size)
      else if strncasecmp_eq 4 buf (codes "coff")
      then set_cpu_fan 0 >> pure (count size)
      else if strncasecmp_eq 4 buf (codes "cpu ")
      then set_fan_to kstrtoul set_cpu_fan size (drop 4 buf)
      else pure (error einval)

  unfoldable pub fan_write : (List ℕ → Option ℕ) → UserBuffer → Io hw.World Ssize
  fan_write kstrtoul user = elim (copy_line 12 user) [
    | line buf ↦ fan_command kstrtoul (length user.bytes) buf
    | refused e ↦ pure (error e)
    | wild ↦ pure fault
  ]

  -- fan_read up to its text: `tmp1` and `tmp2` are the values that the stack holds, since the code
  -- gives its two locals none.
  unfoldable pub fan_read : ℕ → ℕ → Io hw.World FanSpeeds
  fan_read tmp1 tmp2 = ec_request_ports hw >> do
    high1 ← read_into 0x34 tmp1
    low1 ← read_into 0x35 tmp2
    high2 ← read_into 0x36 high1
    low2 ← read_into 0x37 low1
    high3 ← read_into 0x38 high2
    low3 ← read_into 0x39 low2
    high4 ← read_into 0x3a high3
    low4 ← read_into 0x3b low3
    ec_release_ports hw
    let fan3 = high3 * 256 + low3
    let fan4 = high4 * 256 + low4
    pure record {
      fan1 = high1 * 256 + low1;
      fan2 = high2 * 256 + low2;
      fan3 = fan3;
      fan4 = if fan4 == 0 && ltb 0 fan3 then fan3 else fan4;
    }
