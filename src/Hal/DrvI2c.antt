-- ===== src/Hal/DrvI2c.antt =====
-- srcs/interfaces/drv_i2c.h: what the drivers behind the bus call of the bus driver.
use task_mate.Common.{ℕ, Bool, Option}

-- The state of the bus is `B`: whether `DRV_CTRL_GETSTATUS` says that it is running, and the
-- transfers, with false where they return `DRV_STATE_ERROR`. The error that a status query may
-- store in the bus driver is read by none of its clients.
pub record I2c (B : Type 0) : Type 0 where
  pub is_running : B → Bool
  pub comm_start : ℕ → Bool → B → B × Bool
  pub write : ℕ → B → B × Bool
  pub read : Bool → B → B × Option ℕ
  pub comm_stop : B → B × Bool
