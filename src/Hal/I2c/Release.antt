-- ===== src/Hal/I2c/Release.antt =====
-- What a failed step of a transfer leaves on the bus.
use task_mate.Common.{◌≡◌, ◌⊎◌}
use task_mate.Hal.I2c.{Twi, Bus}
use task_mate.Interfaces.{DriverState, running, null_pointer, invalid_value}

module _ {H : Type 0} (twi : Twi H) where
  -- The driver runs on, or it answers an error: it refused the request for its arguments and left
  -- the device as it was, or the device failed and the last thing it did to it is the stop
  -- condition.
  abbrev pub IsSettled : Bus H → Bus H → DriverState → Type 0
  IsSettled s s' state =
      ((state ≡ running) × (s'.life ≡ s.life))
      ⊎ ((state ≡ DriverState.error)
          × (s'.life.status ≡ s.life.status)
          × (((s'.life.last_error ≡ null_pointer ⊎ s'.life.last_error ≡ invalid_value)
                × (s'.twi ≡ s.twi))
              ⊎ ((h : H) × (s'.twi ≡ twi.stop h))))
