-- ===== src/Api.antt =====
-- What app/api.h shares between the parts of the program that print.
pub mod Series
pub mod Json
pub mod Prometheus
use axis_cam_metrics.Base.Text.{Text}

-- `DeviceInfo`
pub record DeviceInfo : Type 0 where
  pub model : Text
  pub product : Text
  pub type : Text
  pub serial : Text
  pub soc : Text
  pub arch : Text
  pub firmware : Text
  pub hostname : Text
