-- ===== src/Hal/Rtc/Bench.antt =====
-- A bus with one chip on it, at the clock's address, for the tests.
use task_mate.Common.{ℕ, ◌+◌, refl, Bool, ◌==◌, if◌then◌else◌}
use task_mate.Hal.I2c.{Twi}
use task_mate.Hal.Rtc.Chip.{Phase, idle, selecting, storing, reading, IsChip}

pub record Chip : Type 0 where
  pub phase : Phase
  pub pointer : ℕ
  pub register : ℕ → ℕ

abbrev chip_write : Phase → ℕ → Chip → Chip × ℕ
chip_write idle v c =
    if v == 0xd0
    then (record c { phase = selecting }, 0x18)
    else if v == 0xd1
    then (record c { phase = reading }, 0x40)
    else (c, 0x20)
chip_write selecting v c = (record c { phase = storing; pointer = v }, 0x28)
chip_write storing v c = (
  record c { pointer = c.pointer + 1; register = λ i. if i == c.pointer then v else c.register i },
  0x28,
)
chip_write reading v c = (c, 0x30)

abbrev chip_read : Phase → Bool → Chip → Chip × ℕ × ℕ
chip_read reading acks c =
    (record c { pointer = c.pointer + 1 }, (if acks then 0x50 else 0x58), c.register c.pointer)
chip_read _ acks c = (c, 0xf8, 0)

abbrev pub bench : Twi Chip
bench = record {
  set_baud = λ c. c;
  enable = λ c. c;
  disable = λ c. c;
  start = λ c. (record c { phase = idle }, 0x08);
  write = λ v c. chip_write c.phase v c;
  read = λ acks c. chip_read c.phase acks c;
  stop = λ c. record c { phase = idle };
  tw_start = 0x08;
  tw_rep_start = 0x10;
  tw_mt_sla_ack = 0x18;
  tw_mt_data_ack = 0x28;
  tw_mr_sla_ack = 0x40;
  tw_mr_data_ack = 0x50;
  tw_mr_data_nack = 0x58;
}

abbrev pub blank_chip : Chip
blank_chip = record { phase = idle; pointer = 0; register = λ i. 0 }

abbrev pub bench-IsChip : IsChip bench
bench-IsChip = record {
  phase = λ c. c.phase;
  pointer = λ c. c.pointer;
  register = λ c. c.register;
  starts = λ c. refl;
  hears_write = λ c. (refl, refl, refl);
  hears_read = λ c. (refl, refl, refl, refl);
  selects = λ c v e. rw e (refl, refl, refl, refl);
  stores = λ c v e l. rw e (refl, refl, refl, λ i. refl);
  gives = λ c e l. rw e (refl, refl, refl, refl, refl);
  gives_last = λ c e l. rw e (refl, refl);
  keeps = λ c. refl;
}
