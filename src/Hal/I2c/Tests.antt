-- ===== src/Hal/I2c/Tests.antt =====
-- The bus driver with the clock's chip on its bus.
use task_mate.Common.{◌≡◌, refl}
use task_mate.Hal.I2c.{Bus, i2c_comm_start, address_device, i2c_driver, i2c_get_status}
use task_mate.Common.Bits.{get_bit}
use task_mate.Hal.Rtc.Bench.{Chip, bench, blank_chip}
use task_mate.Hal.Driver.Standalone.{own_status}
use task_mate.Interfaces.{no_error, i2c_address_nack}
use task_mate.Hal.Driver.{require_running}

abbrev bus_up : Bus Chip
bus_up = record {
  life = record { status = 3; run_level = 0; last_error = no_error };
  scan_address = 0;
  twi = blank_chip;
}

-- Nobody answers at this address.
nobody : (i2c_comm_start bench 0x27 0 bus_up).0.life.last_error ≡ i2c_address_nack
unfolding i2c_comm_start address_device require_running i2c_driver i2c_get_status own_status get_bit
nobody = refl
