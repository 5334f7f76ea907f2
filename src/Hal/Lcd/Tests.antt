-- ===== src/Hal/Lcd/Tests.antt =====
-- The display driver on a dead bus.
use task_mate.Common.{ℕ, ◌≡◌, refl, true, false, List}
use task_mate.Hal.Lcd.{Lcd, lcd_start}
use task_mate.Hal.I2c.{Bus, i2c_bus}
use task_mate.Common.Bits.{get_bit, set_bit}
use task_mate.Interfaces.{drv_bit_dead, drv_bit_init, drv_bit_start, ErrCode, running}
use task_mate.Hal.Lcd.Bench.{panel, up_life, up_lcd}
use task_mate.Hal.Lcd.Dead.{lcd_start-dead_bus}

abbrev dead_bus : Bus (List ℕ)
dead_bus = record up_lcd.bus { life = record up_life { status = 11 } }

abbrev over_dead_bus : Lcd (Bus (List ℕ))
over_dead_bus = record { life = record up_life { status = 1 }; bus = dead_bus }

dead_bus-BusDead : get_bit dead_bus.life.status drv_bit_dead ≡ true
unfolding get_bit
dead_bus-BusDead = refl

over_dead_bus-alive : get_bit over_dead_bus.life.status drv_bit_dead ≡ false
unfolding get_bit
over_dead_bus-alive = refl

over_dead_bus-ready : get_bit over_dead_bus.life.status drv_bit_init ≡ true
unfolding get_bit
over_dead_bus-ready = refl

lcd_start-dead_bus_example : lcd_start (i2c_bus panel) over_dead_bus ≡ (
  record over_dead_bus {
    life = record over_dead_bus.life { status = set_bit over_dead_bus.life.status drv_bit_start };
    bus = record dead_bus { life = record dead_bus.life { last_error = ErrCode.dead } };
  },
  running,
)
lcd_start-dead_bus_example =
    lcd_start-dead_bus panel over_dead_bus dead_bus-BusDead over_dead_bus-alive over_dead_bus-ready
