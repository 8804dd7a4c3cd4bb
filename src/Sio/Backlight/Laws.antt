-- ===== src/Sio/Backlight/Laws.antt =====
-- The backlight: the byte that an update stores.
use ugreen_frontpanel.Base.{◌%◌, ◌≤◌, ◌≡◌, arith, ok}
use ugreen_frontpanel.Ec.Ports.{Ports}
use ugreen_frontpanel.Ec.Helper.{ec_request_ports, ec_write_memory}
use ugreen_frontpanel.Ec.Device.{store, IsController}
use ugreen_frontpanel.Ec.Transfer.{
  ec_write_memory_lem, ec_request_ports-memory, ec_release_ports-memory,
}
use ugreen_frontpanel.Sio.Backlight.{
  BacklightProperties, initial_properties, mipi_backlight_update_status,
}

module _ (hw : Ports) (ec : IsController hw) where
  open ec use {memory}

  -- An update with a brightness within the announced maximum stores exactly that brightness in the
  -- controller's backlight byte, and changes no other byte.
  pub mipi_backlight_update_status-memory :
      (props : BacklightProperties) (w : hw.World)
      → props.brightness ≤ initial_properties.max_brightness
      → ((mipi_backlight_update_status hw props w).0 ≡ ok tt)
        × (memory (mipi_backlight_update_status hw props w).1
            ≡ store (memory w) 0xa5 props.brightness)
  unfolding mipi_backlight_update_status
  mipi_backlight_update_status-memory props w h =
      let w0 = (ec_request_ports hw w).1 in
      let w1 = (ec_write_memory hw 0xa5 (props.brightness % 256) w0).1 in
      let kept : props.brightness % 256 ≡ props.brightness = omega arith in
      ground (
        arith,
        ec_request_ports-memory hw ec w,
        ec_write_memory_lem hw ec 0xa5 (props.brightness % 256) w0,
        ec_release_ports-memory hw ec w1,
      )
