-- ===== src/SysCall/Scan/Tests.antt =====
-- `sc_i2cScan` on a bus with two devices, one of them declared beside one that is absent.
use task_mate.Common.{ℕ, ◌+◌, ◌≡◌, refl, none, some, List, [], ◌∷◌, arith, Bool, ◌*◌, ◌==◌, true}
use task_mate.Interfaces.{DriverState, running, ErrCode, no_error, i2c_scan_complete, setbit}
use task_mate.SysCall.Drivers.{Item, ControlOf}
use task_mate.SysCall.Scan.{
  after_gather, sc_i2c_scan, gather, update_drivers, mark_absent, revive_present,
  sc_i2c_address_found,
}
use task_mate.Hal.I2c
use task_mate.SysCall.Scan.Probe
use task_mate.SysCall.Scan.Probe.{
  IsProbed, IsComplete, i2c_last_error, acted_on, sc_i2c_scan-present,
}
use task_mate.Hal.Rtc.Bench.{Chip, bench, blank_chip}
use task_mate.Common.Bits.{get_bit}
use task_mate.Hal.Driver.Standalone.{IsUp}
use task_mate.Hal.I2c.{i2c_scan}

-- The addresses that the bus will still answer with, and how often a driver was marked as dead.
abbrev Bus : Type 0
Bus = List ℕ × ℕ

abbrev bus_scan : Bus → Bus × DriverState × ℕ
bus_scan ([], n) = (([], n), DriverState.error, 0)
bus_scan (address ∷ rest, n) = ((rest, n), running, address)

abbrev last_error : Bus → Bus × ErrCode
last_error b = (b, i2c_scan_complete)

abbrev marks : ControlOf Bus
marks setbit d (rest, n) = ((rest, n + 1), DriverState.dead, d)
marks _ d b = (b, running, d)

abbrev declared : List (Item Bus)
declared =
    record { control = some marks; address = 0x68; name = none }
    ∷ record { control = some marks; address = 0x27; name = none }
    ∷ record { control = some marks; address = 0xff; name = none }
    ∷ []

abbrev present : List ℕ
present = 0x57 ∷ 0x68 ∷ []

-- The driver whose device did not answer is marked, and no other.
marked : sc_i2c_scan bus_scan last_error 3 declared (present, 0) ≡ some (([], 1), present, no_error)
unfolding sc_i2c_scan gather after_gather update_drivers mark_absent revive_present
    sc_i2c_address_found
marked = refl

abbrev acks : ℕ → Bool
acks a = a * 2 == 0xd0

bench-IsProbed : IsProbed bench acks
bench-IsProbed = record { starts = λ c. refl; acknowledges = λ c a l. ground arith }

abbrev bus_up : I2c.Bus Chip
bus_up = record {
  life = record { status = 3; run_level = 0; last_error = no_error };
  scan_address = 0;
  twi = blank_chip;
}

running-IsUp : IsUp bus_up.life
unfolding get_bit
running-IsUp = (refl, refl, refl, refl)

sc_i2c_scan-present_example :
    (w : I2c.Bus Chip) × IsComplete w
    × (sc_i2c_scan (i2c_scan bench true) (i2c_last_error bench) 128 [] bus_up
        ≡ acted_on (Probe.present acks 127 0) [] w)
sc_i2c_scan-present_example =
    sc_i2c_scan-present bench acks [] 128 bus_up bench-IsProbed running-IsUp refl (omega arith)

-- The clock's address alone
at_the_clock : Probe.present acks 127 0 ≡ 0x68 ∷ []
unfolding Probe.present
at_the_clock = refl
