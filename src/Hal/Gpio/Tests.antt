-- ===== src/Hal/Gpio/Tests.antt =====
-- A lamp and a button on two pins of one port.
use task_mate.Common.{◌≡◌, refl, true, [], ◌∷◌}
use task_mate.Hal.Gpio.{
  Gpio, Pin, gpio_signal_read, gpio_start, sc_gpio_signal_toggle, gpio_signal_write, input,
  output_pp, pins_init, gpio_pin_init, gpio_pin_read, no_port, pull_none, pull_up, gpio_pin_write,
  pin_direction, gpio_require_running, pin_pull, gpio_get_status,
}
use task_mate.Common.Bits.{get_bit, set_bit, clear_bit}
use task_mate.Interfaces.{no_error}
use task_mate.Hal.Driver.Standalone.{own_status}

abbrev lamp : Pin
lamp = record { port = 1; number = 5; mode = output_pp; pull = pull_none }

abbrev button : Pin
button = record { port = 1; number = 2; mode = input; pull = pull_up }

abbrev board : Gpio
board = record {
  life = record { status = 3; run_level = 0; last_error = no_error };
  signal_table = lamp ∷ button ∷ [];
  ports = no_port ∷ no_port ∷ [];
}

-- The start makes the lamp's pin an output and pulls the button's up.
started :
    (gpio_start (record board { life = record board.life { status = 1 } })).0.ports
    ≡ no_port ∷ record { ddr = 32; port = 4; pin = 0 } ∷ []
unfolding gpio_start pins_init gpio_pin_init pin_direction pin_pull get_bit set_bit clear_bit
started = refl

toggled : (gpio_signal_read 0 (sc_gpio_signal_toggle 0 board)).1 ≡ true
unfolding sc_gpio_signal_toggle gpio_signal_read gpio_signal_write gpio_pin_read gpio_pin_write
    gpio_require_running gpio_get_status own_status get_bit set_bit
toggled = refl
