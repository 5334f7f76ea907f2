-- ===== src/Hal/Lcd/Bench.antt =====
-- A bus on which the display takes every byte and the bus keeps them, the last one first.
use task_mate.Common.{ℕ, refl, List, [], ◌∷◌, ◌==◌, if◌then◌else◌}
use task_mate.Hal.I2c.{Twi, Bus}
use task_mate.Hal.Driver.{Life}
use task_mate.Common.Bits.{get_bit}
use task_mate.Hal.Lcd.{Lcd}
use task_mate.Interfaces.{no_error}
use task_mate.Hal.Driver.Standalone.{IsUp}

abbrev pub panel : Twi (List ℕ)
panel = record {
  set_baud = λ l. l;
  enable = λ l. l;
  disable = λ l. l;
  start = λ l. (l, 0x08);
  write = λ v l. (v ∷ l, if v == 0x78 then 0x18 else 0x28);
  read = λ acks l. (l, 0xf8, 0);
  stop = λ l. 0x100 ∷ l;
  tw_start = 0x08;
  tw_rep_start = 0x10;
  tw_mt_sla_ack = 0x18;
  tw_mt_data_ack = 0x28;
  tw_mr_sla_ack = 0x40;
  tw_mr_data_ack = 0x50;
  tw_mr_data_nack = 0x58;
}

abbrev pub up_life : Life
up_life = record { status = 3; run_level = 0; last_error = no_error }

pub up_life-IsUp : IsUp up_life
unfolding get_bit
up_life-IsUp = (refl, refl, refl, refl)

abbrev pub up_lcd : Lcd (Bus (List ℕ))
up_lcd = record { life = up_life; bus = record { life = up_life; scan_address = 0; twi = [] } }
