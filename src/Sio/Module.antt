-- ===== src/Sio/Module.antt =====
-- Loading and unloading of packages/ugreen-sio/ug_it55pro_functions.c: the checks of
-- functions_init, and what functions_exit writes to the controller.
use ugreen_frontpanel.Base.{
  ℕ, ◌≡◌, Bool, List, if◌then◌else◌, codes, strcmp_eq, Io, ◌>>◌, enomem, enodev, ok, err, Ret,
}
use ugreen_frontpanel.Ec.Ports.{Ports}
use ugreen_frontpanel.Ec.Device.{store, IsController}
use ugreen_frontpanel.Ec.Helper.{ec_write_memory}
use ugreen_frontpanel.Ec.Transfer.{ec_write_memory_lem}
use ugreen_frontpanel.Sio.Fan.{fan1_mode, fan2_mode, fan3_mode, fan4_mode}
use ugreen_frontpanel.Sio.PowerLevel.{ec_pwr_enable}

-- `mapped` says whether the register of the power status can be mapped. The results of the three
-- registrations that follow are ignored.
unfoldable pub functions_init : List ℕ → Bool → Ret
functions_init product mapped =
    if strcmp_eq product (codes "iDX6011 Pro")
    then (if mapped then ok tt else err enomem)
    else err enodev

module _ (hw : Ports) where
  -- The writes that functions_exit begins with: no port is requested for them.
  unfoldable pub functions_exit : Io hw.World Ret
  functions_exit =
      ec_write_memory hw fan1_mode 0
      >> ec_write_memory hw fan2_mode 0
      >> ec_write_memory hw fan3_mode 0
      >> ec_write_memory hw fan4_mode 0
      >> ec_write_memory hw ec_pwr_enable 1

-- With a controller that keeps its protocol, functions_exit gives all four fans back to it, sets the
-- power level's byte of enabling to 1 and leaves the rest of its memory alone.
pub functions_exit-memory :
    (hw : Ports) (ec : IsController hw) (w : hw.World)
    → ec.memory (functions_exit hw w).1
      ≡ store (store (store (store (store (ec.memory w) 0xb0 0) 0xb2 0) 0xb4 0) 0xb6 0) 0xA0 1
unfolding functions_exit
functions_exit-memory hw ec w =
    let w1 = (ec_write_memory hw fan1_mode 0 w).1 in
    let w2 = (ec_write_memory hw fan2_mode 0 w1).1 in
    let w3 = (ec_write_memory hw fan3_mode 0 w2).1 in
    let w4 = (ec_write_memory hw fan4_mode 0 w3).1 in
    cc (
      (ec_write_memory_lem hw ec fan1_mode 0 w).1,
      (ec_write_memory_lem hw ec fan2_mode 0 w1).1,
      (ec_write_memory_lem hw ec fan3_mode 0 w2).1,
      (ec_write_memory_lem hw ec fan4_mode 0 w3).1,
      (ec_write_memory_lem hw ec ec_pwr_enable 1 w4).1,
    )
