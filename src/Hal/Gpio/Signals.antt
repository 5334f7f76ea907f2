-- ===== src/Hal/Gpio/Signals.antt =====
-- What the signals of a running pin driver read behind a write.
use task_mate.Common.{◌<◌, Bool, not, ◌&&◌, ◌==◌, if◌then◌else◌, length, set}
use task_mate.Hal.Gpio.{Gpio, Pin, Port, port_of, is_input}
use task_mate.Common.Bits.{get_bit, set_bit, clear_bit}

-- The output bit of a pin as a write leaves it
abbrev written : Pin → Bool → Port → Port
written p value r = record r {
  port = if value then set_bit r.port p.number else clear_bit r.port p.number;
}

-- The state that a write leaves
abbrev after_write : Pin → Bool → Gpio → Gpio
after_write p value s = record s { ports = set s.ports p.port (written p value (port_of s p)) }

-- The value of a pin in the registers of its port
abbrev value_of : Pin → Port → Bool
value_of p r = if is_input p.mode then get_bit r.pin p.number else get_bit r.port p.number

-- The pin is one of the device's.
abbrev pub IsPin : Gpio → Pin → Type 0
IsPin s p = (p.port < length s.ports) × (p.number < 8) × ((port_of s p).port < 256)

-- The two pins are the same bit of the same port.
abbrev pub same_pin : Pin → Pin → Bool
same_pin p q = q.port == p.port && q.number == p.number

-- What a read gives behind the write
abbrev expected : Pin → Pin → Bool → Port → Bool
expected p q value r = if same_pin p q && not (is_input q.mode) then value else value_of q r
