-- ===== src/Sio/Backlight.antt =====
-- The LCD backlight in packages/ugreen-sio/ug_it55pro_functions.c:
-- mipi_backlight_update_status, with the properties that mipi_backlight_driver_init sets.
use ugreen_frontpanel.Base.{ℕ, ◌%◌, Io, pure, ◌>>◌, ◌>>=◌, Result, ok, Ret}
use ugreen_frontpanel.Ec.Ports.{Ports}
use ugreen_frontpanel.Ec.Helper.{ec_request_ports, ec_release_ports, ec_write_memory}
pub mod Laws

abbrev pub bklt_pwm_value : ℕ
bklt_pwm_value = 0xa5

-- The part of `struct backlight_properties` that the driver sets.
pub record BacklightProperties : Type 0 where
  pub max_brightness : ℕ
  pub brightness : ℕ

abbrev pub initial_properties : BacklightProperties
initial_properties = record { max_brightness = 198; brightness = 80 }

module _ (hw : Ports) where
  -- `ret` is only printed.
  unfoldable pub mipi_backlight_update_status : BacklightProperties → Io hw.World Ret
  mipi_backlight_update_status props =
      ec_request_ports hw
      >> ec_write_memory hw bklt_pwm_value (props.brightness % 256)
      >> ec_release_ports hw
      >> pure (ok tt)
