-- ===== src/Hal/Timer/Monotonic.antt =====
-- srcs/hal/mcu/atmega2560/at2560_timerMonotonic.c: the count of 100 µs ticks.
use task_mate.Common.{ℕ, ◌+◌, ◌-◌, ◌*◌, ◌/◌, refl, false, not, Option, if◌then◌else◌, u16, u32}
use task_mate.Hal.Timer.{Timer, TimerBits, with_error}
use task_mate.Interfaces.{
  DriverState, Control, ErrCode, ControlData, drv_bit_dead, drv_bit_init, drv_bit_start, no_error,
  not_initialized, running,
}
use task_mate.Hal.Driver.Standalone.{own_status, IsStandalone, standalone-IsDriver}
use task_mate.Common.Bits.{get_bit, clear_bit, set_bit, bit_mask}
use task_mate.Hal.Driver.{Driver, set_error, control}
use task_mate.Hal.Driver.Dead.{IsDriver}

abbrev pub at2560timermonotonic_div_clock : ℕ
at2560timermonotonic_div_clock = 8

abbrev pub at2560timermonotonic_freq_ticks_hz : ℕ
at2560timermonotonic_freq_ticks_hz = 10000

-- `AT2560TIMERMONOTONIC_COUNT_TOP`; `f_cpu` is `F_CPU`.
unfoldable pub count_top : ℕ → ℕ
count_top f_cpu = f_cpu / (at2560timermonotonic_div_clock * at2560timermonotonic_freq_ticks_hz) - 1

-- The driver's variables
pub record Monotonic : Type 0 where
  pub ticks : ℕ
  pub timer : Timer

-- `ISR(TIMER3_COMPA_vect)`
unfoldable pub monotonic_interrupt : Monotonic → Monotonic
monotonic_interrupt s = record s { ticks = u32 (s.ticks + 1) }

-- `hal_timerMonotonicRead`; interrupts are off while it reads.
unfoldable pub monotonic_read : Monotonic → ℕ
monotonic_read s = s.ticks

-- `timerMonotonicGetStatus`
unfoldable pub monotonic_get_status : Monotonic → Monotonic × DriverState
monotonic_get_status s =
    let (l, state) = own_status s.timer.life in
    (record s { timer = record s.timer { life = l } }, state)

module _ (bits : TimerBits) (f_cpu : ℕ) where
  abbrev failed : ErrCode → Monotonic → Monotonic × DriverState
  failed e s = (record s { timer = with_error e s.timer }, DriverState.error)

  -- `timerMonotonicInit`
  unfoldable pub monotonic_init : Monotonic → Monotonic × DriverState
  unfolding count_top
  monotonic_init s = if get_bit s.timer.life.status drv_bit_dead then failed ErrCode.dead s else (
    record s {
      timer = record s.timer {
        life = record s.timer.life {
          status = set_bit s.timer.life.status drv_bit_init;
          last_error = no_error;
        };
        regs = record s.timer.regs {
          tccr_a = 0;
          tccr_b = bit_mask bits.wgm;
          tcnt = 0;
          ocr = u16 (count_top f_cpu);
          timsk = clear_bit s.timer.regs.timsk bits.ocie;
          compared = false;
        };
      };
    },
    DriverState.initialized,
  )

  -- `timerMonotonicStart`
  unfoldable pub monotonic_start : Monotonic → Monotonic × DriverState
  monotonic_start s =
      if get_bit s.timer.life.status drv_bit_dead
      then failed ErrCode.dead s
      else if not (get_bit s.timer.life.status drv_bit_init)
      then failed not_initialized s
      else (
        record s {
          timer = record s.timer {
            life = record s.timer.life { status = set_bit s.timer.life.status drv_bit_start };
            regs = record s.timer.regs {
              tcnt = 0;
              timsk = set_bit s.timer.regs.timsk bits.ocie;
              tccr_b = set_bit s.timer.regs.tccr_b bits.cs1;
              compared = false;
            };
          };
        },
        running,
      )

  -- The statements of `timerMonotonicStop` before the status
  abbrev pub monotonic_stopped : Monotonic → Monotonic
  monotonic_stopped s = record s {
    timer = record s.timer {
      life = record s.timer.life { status = clear_bit s.timer.life.status drv_bit_start };
      regs = record s.timer.regs {
        tccr_b = clear_bit s.timer.regs.tccr_b bits.cs1;
        timsk = clear_bit s.timer.regs.timsk bits.ocie;
        compared = false;
      };
    };
  }

  -- `timerMonotonicStop`
  unfoldable pub monotonic_stop : Monotonic → Monotonic × DriverState
  monotonic_stop s = monotonic_get_status (monotonic_stopped s)

  unfoldable pub monotonic_driver : Driver Monotonic
  monotonic_driver = record {
    life = λ s. s.timer.life;
    with_life = λ l s. record s { timer = record s.timer { life = l } };
    on_init = monotonic_init;
    on_start = monotonic_start;
    on_stop = monotonic_stop;
    get_status = monotonic_get_status;
  }

  -- `hal_timerMonotonicControl`
  unfoldable pub monotonic_control :
      Control → Option ControlData → Monotonic → Monotonic × DriverState × Option ControlData
  monotonic_control command dat s = control monotonic_driver command dat s

  monotonic-IsStandalone : IsStandalone monotonic_driver
  unfolding monotonic_driver monotonic_get_status monotonic_init monotonic_start monotonic_stop
      set_error
  monotonic-IsStandalone = record {
    stopped = monotonic_stopped;
    life_with = λ s l. refl;
    status_is = λ s. refl;
    init_is = λ s h. rw h refl;
    start_is = λ s h. rw h refl;
    stop_is = λ s. refl;
    stopped_status = λ s. refl;
  }

  -- The tick counter's operations respect the DEAD bit.
  pub monotonic-IsDriver : IsDriver monotonic_driver
  monotonic-IsDriver = standalone-IsDriver monotonic_driver monotonic-IsStandalone
