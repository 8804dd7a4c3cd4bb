-- ===== src/Sio/Startup.antt =====
-- The power status of /proc/it86/startup: get_power_status, save_power_status and
-- set_power_status in packages/ugreen-sio/ug_it55pro_functions.c. The register is memory that
-- the kernel maps, with `ioread32` and `iowrite32`.
pub mod Laws
use ugreen_frontpanel.Base.{
  ℕ, ◌<◌, ◌^◌, ◌≡◌, Bool, List, ◌==◌, if◌then◌else◌, bit_and, bit_or, codes, strncasecmp_eq, length,
  Io, pure, ◌>>=◌, ◌>>◌, act, Errno, enodev, einval, Result, ok, err, Ret, Ssize, count, error,
  fault,
}
use ugreen_frontpanel.ProcFile.{UserBuffer, Copied, line, refused, wild, copy_line}

pub record PowerRegister : Type 1 where
  pub World : Type 0
  pub ioread32 : World → ℕ × World
  pub iowrite32 : ℕ → World → World

-- A register of 32 bits that keeps what is written and is not changed by a read.
pub record IsRegister (reg : PowerRegister) : Type 0 where
  pub value : reg.World → ℕ
  pub value_bound : (w : reg.World) → value w < 2 ^ 32
  pub read_value : (w : reg.World) → (reg.ioread32 w).0 ≡ value w
  pub read_keeps : (w : reg.World) → value (reg.ioread32 w).1 ≡ value w
  pub write_value : (v : ℕ) (w : reg.World) → v < 2 ^ 32 → value (reg.iowrite32 v w) ≡ v

-- `mapped` says whether `power_status_virt_addr` is not NULL.
module _ (reg : PowerRegister) (mapped : Bool) where
  open reg use {World, ioread32, iowrite32}

  -- What get_power_status prints, without the line feed.
  unfoldable pub get_power_status : Io World (Result (List ℕ))
  get_power_status =
      if mapped
      then (ioread32 >>= λ val.
          let power_status = bit_and val 1 in
          pure (
            ok (
              if power_status == 0
              then codes "power on"
              else if power_status == 1
              then codes "power off"
              else codes "unkown status")))
      else pure (err enodev)

  unfoldable pub save_power_status : ℕ → Io World Ret
  save_power_status status =
      if mapped
      then (if status == 0
          then (ioread32 >>= λ val. act (iowrite32 (bit_or val 1)) >> pure (ok tt))
          else if status == 1
          then (ioread32 >>= λ val. act (iowrite32 (bit_and val 0xfffffffe)) >> pure (ok tt))
          else pure (ok tt))
      else pure (err enodev)

  -- set_power_status once its input stands in `buf`: the result of save_power_status is ignored.
  unfoldable pub power_command : ℕ → List ℕ → Io World Ssize
  power_command size buf =
      if strncasecmp_eq 3 buf (codes "on")
      then save_power_status 1 >> pure (count size)
      else if strncasecmp_eq 4 buf (codes "off")
      then save_power_status 0 >> pure (count size)
      else if strncasecmp_eq 5 buf (codes "last")
      then save_power_status 2 >> pure (count size)
      else pure (error einval)

  unfoldable pub set_power_status : UserBuffer → Io World Ssize
  set_power_status user = elim (copy_line 12 user) [
    | line buf ↦ power_command (length user.bytes) buf
    | refused e ↦ pure (error e)
    | wild ↦ pure fault
  ]
