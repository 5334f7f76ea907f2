-- ===== src/Hal/Gpio.antt =====
-- srcs/hal/mcu/atmega2560/at2560_gpio.c and srcs/system/sysCall/sc_gpio.c: the pins of the device
-- and the signals that the target wires to them.
pub mod Signals
mod Tests
use task_mate.Common.{
  ℕ, ◌-◌, refl, Bool, true, false, not, Option, List, [], ◌∷◌, if◌then◌else◌, get_or, set,
}
use task_mate.Hal.Driver.{Driver, Life, set_error, control}
use task_mate.Interfaces.{
  Control, DriverState, ErrCode, ControlData, drv_bit_dead, drv_bit_start, not_running,
  drv_bit_init, running, no_error, not_initialized, off, initialized,
}
use task_mate.Common.Bits.{clear_bit, get_bit, set_bit}
use task_mate.Hal.Driver.Dead.{IsDriver}
use task_mate.Hal.Driver.Standalone.{IsStandalone, own_status, standalone-IsDriver}

-- `gpio_pin_mode_t` and `gpio_pin_pull_t`
pub data PinMode : Type 0 where
  input output_pp output_od output_hz : PinMode

pub data PinPull : Type 0 where
  pull_none pull_up pull_down : PinPull

-- `hal_pin_t`, in `hal_signal_t`; `active_high` is not read by the driver.
pub record Pin : Type 0 where
  pub port : ℕ
  pub number : ℕ
  pub mode : PinMode
  pub pull : PinPull

-- The three registers of a port, which `mcu_ports` names: direction, output, and input. The input is
-- what the device shows at the moment of a call; it is taken to stand still within one.
pub record Port : Type 0 where
  pub ddr : ℕ
  pub port : ℕ
  pub pin : ℕ

-- `signal_table`, the other variables of the driver, and the ports of the device
pub record Gpio : Type 0 where
  pub life : Life
  pub signal_table : List Pin
  pub ports : List Port

abbrev pub no_pin : Pin
no_pin = record { port = 0; number = 0; mode = input; pull = pull_none }

abbrev pub no_port : Port
no_port = record { ddr = 0; port = 0; pin = 0 }

abbrev is_input : PinMode → Bool
is_input input = true
is_input _ = false

abbrev is_output_pp : PinMode → Bool
is_output_pp output_pp = true
is_output_pp _ = false

abbrev is_pull_up : PinPull → Bool
is_pull_up pull_up = true
is_pull_up _ = false

-- `signal_table[signal].pin`; a signal is one of the enumeration, so it is in the table.
abbrev pub pin_of : Gpio → ℕ → Pin
pin_of s signal = get_or s.signal_table signal no_pin

abbrev pub port_of : Gpio → Pin → Port
port_of s p = get_or s.ports p.port no_port

abbrev with_port : ℕ → Port → Gpio → Gpio
with_port i p s = record s { ports = set s.ports i p }

abbrev with_error : ErrCode → Gpio → Gpio
with_error e s = record s { life = record s.life { last_error = e } }

-- `hal_gpioGetStatus`
unfoldable pub gpio_get_status : Gpio → Gpio × DriverState
gpio_get_status s = let (l, state) = own_status s.life in (record s { life = l }, state)

-- `gpioRequireRunning`
abbrev pub ready : Gpio × DriverState → Gpio × Bool
ready (s, running) = (s, true)
ready (s, off) = (with_error not_running s, false)
ready (s, initialized) = (with_error not_running s, false)
ready (s, state) = (s, false)

unfoldable pub gpio_require_running : Gpio → Gpio × Bool
unfolding gpio_get_status
gpio_require_running s = ready (gpio_get_status s)

-- What an operation does if the guard lets it
abbrev pub when_ready : {R : Type 0} → Gpio × Bool → (Gpio → R) → (Gpio → R) → R
when_ready (s, true) go other = go s
when_ready (s, false) go other = other s

-- The statements of `gpioPinInit` on the registers of the pin's port
unfoldable pub pin_direction : Pin → Port → Port
pin_direction p r =
    if is_input p.mode
    then record r { ddr = clear_bit r.ddr p.number }
    else if is_output_pp p.mode
    then record r { ddr = set_bit r.ddr p.number }
    else r

unfoldable pub pin_pull : Pin → Port → Port
pin_pull p r = if is_pull_up p.pull then record r { port = set_bit r.port p.number } else r

-- `gpioPinInit`
unfoldable pub gpio_pin_init : Pin → Gpio → Gpio
unfolding pin_direction pin_pull
gpio_pin_init p s = with_port p.port (pin_pull p (pin_direction p (port_of s p))) s

-- The loop of `hal_gpioStart`
unfoldable pub pins_init : List Pin → Gpio → Gpio
unfolding gpio_pin_init
pins_init [] s = s
pins_init (p ∷ ps) s = pins_init ps (gpio_pin_init p s)

-- `hal_gpioStart`
unfoldable pub gpio_start : Gpio → Gpio × DriverState
unfolding pins_init
gpio_start s =
    if get_bit s.life.status drv_bit_dead
    then (with_error ErrCode.dead s, DriverState.error)
    else if not (get_bit s.life.status drv_bit_init)
    then (with_error not_initialized s, DriverState.error)
    else (
      record (pins_init s.signal_table s) {
        life = record s.life {
          status = set_bit s.life.status drv_bit_start;
          last_error = no_error;
        };
      },
      running,
    )

-- The statement of `hal_gpioStop` before the status
abbrev pub gpio_stopped : Gpio → Gpio
gpio_stopped s = record s {
  life = record s.life { status = clear_bit s.life.status drv_bit_start };
}

-- `hal_gpioStop`
unfoldable pub gpio_stop : Gpio → Gpio × DriverState
gpio_stop s = gpio_get_status (gpio_stopped s)

-- `gpioPinWrite`
unfoldable pub gpio_pin_write : Pin → Bool → Gpio → Gpio
unfolding gpio_require_running
gpio_pin_write p value s =
    when_ready (gpio_require_running s)
      (λ s'.
        let r = port_of s' p in
        with_port p.port
          (record r { port = if value then set_bit r.port p.number else clear_bit r.port p.number })
          s')
      (λ s'. s')

-- `gpioPinRead`
unfoldable pub gpio_pin_read : Pin → Gpio → Gpio × Bool
unfolding gpio_require_running
gpio_pin_read p s =
    when_ready (gpio_require_running s)
      (λ s'.
        let r = port_of s' p in
        (s', if is_input p.mode then get_bit r.pin p.number else get_bit r.port p.number))
      (λ s'. (s', false))

-- `hal_gpioSignalWrite`
unfoldable pub gpio_signal_write : ℕ → Bool → Gpio → Gpio
unfolding gpio_require_running gpio_pin_write
gpio_signal_write signal value s =
    when_ready (gpio_require_running s) (λ s'. gpio_pin_write (pin_of s' signal) value s')
      (λ s'. s')

-- `hal_gpioSignalRead`
unfoldable pub gpio_signal_read : ℕ → Gpio → Gpio × Bool
unfolding gpio_require_running gpio_pin_read
gpio_signal_read signal s =
    when_ready (gpio_require_running s) (λ s'. gpio_pin_read (pin_of s' signal) s')
      (λ s'. (s', false))

-- `sc_gpio_signalSet`
unfoldable pub sc_gpio_signal_set : ℕ → Bool → Gpio → Gpio
unfolding gpio_signal_write
sc_gpio_signal_set signal val s = gpio_signal_write signal val s

-- `sc_gpio_signalGet`
unfoldable pub sc_gpio_signal_get : ℕ → Gpio → Gpio × Bool
unfolding gpio_signal_read
sc_gpio_signal_get signal s = gpio_signal_read signal s

-- `sc_gpio_signalToggle`; interrupts are off meanwhile.
unfoldable pub sc_gpio_signal_toggle : ℕ → Gpio → Gpio
unfolding gpio_signal_read gpio_signal_write
sc_gpio_signal_toggle signal s =
    let (s', value) = gpio_signal_read signal s in gpio_signal_write signal (not value) s'

-- What the generated `targetWireSignal` stores for each signal of the target is `wiring`.
module _ (wiring : List Pin) where
  -- `hal_gpioInit`
  unfoldable pub gpio_init : Gpio → Gpio × DriverState
  gpio_init s =
      if get_bit s.life.status drv_bit_dead
      then (with_error ErrCode.dead s, DriverState.error)
      else (
        record s {
          signal_table = wiring;
          life = record s.life {
            status = set_bit s.life.status drv_bit_init;
            last_error = no_error;
          };
        },
        DriverState.initialized,
      )

  unfoldable pub gpio_driver : Driver Gpio
  gpio_driver = record {
    life = λ s. s.life;
    with_life = λ l s. record s { life = l };
    on_init = gpio_init;
    on_start = gpio_start;
    on_stop = gpio_stop;
    get_status = gpio_get_status;
  }

  -- `hal_gpioControl`
  unfoldable pub gpio_control :
      Control → Option ControlData → Gpio → Gpio × DriverState × Option ControlData
  gpio_control command dat s = control gpio_driver command dat s

  gpio-IsStandalone : IsStandalone gpio_driver
  unfolding gpio_driver gpio_get_status gpio_init gpio_start gpio_stop set_error
  gpio-IsStandalone = record {
    stopped = gpio_stopped;
    life_with = λ s l. refl;
    status_is = λ s. refl;
    init_is = λ s h. rw h refl;
    start_is = λ s h. rw h refl;
    stop_is = λ s. refl;
    stopped_status = λ s. refl;
  }

  -- The operations of the pin driver respect the DEAD bit.
  pub gpio-IsDriver : IsDriver gpio_driver
  gpio-IsDriver = standalone-IsDriver gpio_driver gpio-IsStandalone
