-- ===== src/Setup/Masters.antt =====
-- What setupi2c (i2c/i2c-odroid-c4.c) makes of the registers of a master.
use sddf_i2c_driver.Prelude.{◌≡◌, refl, arith}
use sddf_i2c_driver.Prelude.Bits.{field}
use sddf_i2c_driver.Interface.{Interface}
use sddf_i2c_driver.Interface.Width.{Fit32}
use sddf_i2c_driver.Setup.{setup_interface, div_h, div_l}
use sddf_i2c_driver.Setup.Ctl.{
  ctl-keeps, ctl-divider, ctl-automatic, ctl-acknowledged, ctl-ungated, ctl-Fit32,
}
use sddf_i2c_driver.Setup.Addr.{
  addr-keeps, addr-sda, addr-scl, addr-delay, addr-delay_on, addr-Fit32,
}

-- What setupi2c makes of the registers of one master.
pub record Configured (r r' : Interface) : Type 0 where
  pub automatic : field 22 1 r'.ctl ≡ 0
  pub acknowledged : field 1 1 r'.ctl ≡ 0
  pub ungated : field 31 1 r'.ctl ≡ 1
  pub divider : field 12 10 r'.ctl ≡ div_h
  pub ctl_rest :
      (field 0 1 r'.ctl ≡ field 0 1 r.ctl)
      × (field 2 10 r'.ctl ≡ field 2 10 r.ctl)
      × (field 23 8 r'.ctl ≡ field 23 8 r.ctl)
  pub scl_filter : field 11 3 r'.addr ≡ 0
  pub sda_filter : field 8 3 r'.addr ≡ 0
  pub delay : field 16 9 r'.addr ≡ div_l
  pub delay_on : field 28 1 r'.addr ≡ 1
  pub addr_rest :
      (field 0 8 r'.addr ≡ field 0 8 r.addr)
      × (field 14 2 r'.addr ≡ field 14 2 r.addr)
      × (field 25 3 r'.addr ≡ field 25 3 r.addr)
      × (field 29 3 r'.addr ≡ field 29 3 r.addr)

-- `setupi2c` leaves each master with manual mode and the ignoring of acknowledges off, the clock
-- gating bypassed, the clock divider at 154, both filters at 0, and the delay of the clock at 116
-- and switched on; every other field of the control and address registers is kept.
pub setup_interface-Configured : (r : Interface) → Configured r (setup_interface r)
unfolding setup_interface
setup_interface-Configured r = record {
  automatic = ctl-automatic r.ctl;
  acknowledged = ctl-acknowledged r.ctl;
  ungated = ctl-ungated r.ctl;
  divider = ctl-divider r.ctl;
  ctl_rest = (
    ctl-keeps r.ctl 0 1 refl refl refl refl refl,
    ctl-keeps r.ctl 2 10 refl refl refl refl refl,
    ctl-keeps r.ctl 23 8 refl refl refl refl refl,
  );
  scl_filter = addr-scl r.addr;
  sda_filter = addr-sda r.addr;
  delay = addr-delay r.addr;
  delay_on = addr-delay_on r.addr;
  addr_rest = (
    addr-keeps r.addr 0 8 refl refl refl refl refl refl,
    addr-keeps r.addr 14 2 refl refl refl refl refl refl,
    addr-keeps r.addr 25 3 refl refl refl refl refl refl,
    addr-keeps r.addr 29 3 refl refl refl refl refl refl,
  );
}

pub setup_interface-Fit32 : (r : Interface) → Fit32 r → Fit32 (setup_interface r)
unfolding setup_interface
setup_interface-Fit32 r k = ground (arith, ctl-Fit32 r.ctl, addr-Fit32 r.addr)
