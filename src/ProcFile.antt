-- ===== src/ProcFile.antt =====
-- How the write handlers of the /proc files in packages/ugreen-sio take their input: the lines
-- that `fan_write`, `set_power_status` and `beeper_write` begin with, and those of `pwr_write`,
-- `g3wakeup_write` and `lanwakeup_write`. `kstrtoul` and `copy_from_user` are the kernel's.
use ugreen_frontpanel.Base.{
  ℕ, ◌-◌, Bool, List, ltb, ◌==◌, if◌then◌else◌, length, get_or, set, pad, Errno, efault, einval,
}

-- What a handler was given: the bytes, as many as `count` says, and whether `copy_from_user` can
-- read them all.
pub record UserBuffer : Type 0 where
  pub bytes : List ℕ
  pub readable : Bool

pub data Copied : Type 0 where
  line : List ℕ → Copied
  refused : Errno → Copied
  wild : Copied

-- `if (buf[count - 1] == 0x0a) buf[count - 1] = '\0'`
abbrev pub trim_newline : ℕ → List ℕ → List ℕ
trim_newline count buf = if get_or buf (count - 1) 0 == 0x0a then set buf (count - 1) 0 else buf

-- The checked copy into `char buf[size]`. With `count == 0` the code reads `buf[-1]`: `wild`.
unfoldable pub copy_line : ℕ → UserBuffer → Copied
copy_line size user =
    if ltb (size - 1) (length user.bytes)
    then refused einval
    else if user.readable
    then (if length user.bytes == 0
        then wild
        else line (trim_newline (length user.bytes) (pad size user.bytes)))
    else refused efault

-- The copy into `char user_buffer[size]` by the count that the caller gave. No code of the driver
-- compares it with the size of the buffer, but `copy_from_user` does (`check_copy_size`) and copies
-- nothing then, which the handler takes for a fault of the user's.
unfoldable pub copy_unchecked : ℕ → UserBuffer → Copied
copy_unchecked size user =
    if ltb size (length user.bytes)
    then refused einval
    else if user.readable
    then line (pad size user.bytes)
    else refused einval
