-- ===== src/Hal/Timer/Context.antt =====
-- srcs/hal/mcu/atmega2560/at2560_timerContext.c: the timer that interrupts the running thread.
use task_mate.Common.{ℕ, ◌-◌, refl, false, not, Option, none, some, if◌then◌else◌}
use task_mate.Hal.Timer.{Timer, TimerBits, with_error, Registers}
use task_mate.Interfaces.{
  DriverState, ErrCode, Control, null_pointer, ControlData, drv_bit_dead, drv_bit_init,
  drv_bit_start, running, no_error, not_initialized,
}
use task_mate.Hal.Driver.Standalone.{own_status, IsStandalone, standalone-IsDriver}
use task_mate.Common.Bits.{get_bit, clear_bit, set_bit, bit_mask}
use task_mate.Hal.Driver.{Driver, set_error, when_running, require_running, control}
use task_mate.Hal.Driver.Dead.{IsDriver}

abbrev pub at2560timercontext_count_overflow : ℕ
at2560timercontext_count_overflow = 1999

abbrev at2560timercontext_count_guard : ℕ
at2560timercontext_count_guard = 4

-- The driver's variables; `none` is the NULL of `schedCallback`, and `F` stands for the functions.
pub record Context (F : Type 0) : Type 0 where
  pub sched_callback : Option F
  pub timer : Timer

module _ {F : Type 0} where
  -- `hal_timerContextGetStatus`
  unfoldable pub context_get_status : Context F → Context F × DriverState
  context_get_status s =
      let (l, state) = own_status s.timer.life in
      (record s { timer = record s.timer { life = l } }, state)

  abbrev failed : ErrCode → Context F → Context F × DriverState
  failed e s = (record s { timer = with_error e s.timer }, DriverState.error)

  -- `hal_timerContextSetCallback`
  unfoldable pub context_set_callback : Option F → Context F → Context F × DriverState
  unfolding context_get_status
  context_set_callback none s = failed null_pointer s
  context_set_callback (some f) s = context_get_status (record s { sched_callback = some f })

-- `AT2560_TIMERCONTEXT_START`, which selects the clock divided by 8
unfoldable pub clock_start : TimerBits → Registers → Registers
clock_start bits r = record r { tccr_b = set_bit r.tccr_b bits.cs1 }

-- `AT2560_TIMERCONTEXT_STOP`, which clears the three bits at once
unfoldable pub clock_stop : TimerBits → Registers → Registers
clock_stop bits r = record r {
  tccr_b = clear_bit (clear_bit (clear_bit r.tccr_b bits.cs2) bits.cs1) bits.cs0;
  tcnt = 0;
}

module _ {F : Type 0} (bits : TimerBits) where
  -- `hal_timerContextInit`
  unfoldable pub context_init : Context F → Context F × DriverState
  context_init s = if get_bit s.timer.life.status drv_bit_dead then failed ErrCode.dead s else (
    record s {
      timer = record s.timer {
        life = record s.timer.life {
          status = set_bit s.timer.life.status drv_bit_init;
          last_error = no_error;
        };
        regs = record s.timer.regs {
          tccr_a = 0;
          tccr_b = bit_mask bits.wgm;
          tcnt = 0;
          ocr = at2560timercontext_count_overflow;
          timsk = clear_bit s.timer.regs.timsk bits.ocie;
          compared = false;
        };
      };
    },
    DriverState.initialized,
  )

  -- `hal_timerContextStart`
  unfoldable pub context_start : Context F → Context F × DriverState
  context_start s =
      if get_bit s.timer.life.status drv_bit_dead
      then failed ErrCode.dead s
      else if not (get_bit s.timer.life.status drv_bit_init)
      then failed not_initialized s
      else (
        record s {
          timer = record s.timer {
            life = record s.timer.life { status = set_bit s.timer.life.status drv_bit_start };
            regs = clock_start bits (record s.timer.regs {
              tcnt = 0;
              compared = false;
              timsk = set_bit s.timer.regs.timsk bits.ocie;
            });
          };
        },
        running,
      )

  -- The statements of `hal_timerContextStop` before the status
  abbrev pub context_stopped : Context F → Context F
  context_stopped s = record s {
    timer = record s.timer {
      life = record s.timer.life { status = clear_bit s.timer.life.status drv_bit_start };
      regs = record (clock_stop bits s.timer.regs) {
        timsk = clear_bit s.timer.regs.timsk bits.ocie;
        compared = false;
      };
    };
  }

  -- `hal_timerContextStop`
  unfoldable pub context_stop : Context F → Context F × DriverState
  context_stop s = context_get_status (context_stopped s)

  unfoldable pub context_driver : Driver (Context F)
  context_driver = record {
    life = λ s. s.timer.life;
    with_life = λ l s. record s { timer = record s.timer { life = l } };
    on_init = context_init;
    on_start = context_start;
    on_stop = context_stop;
    get_status = context_get_status;
  }

  -- `hal_timerContextControl`
  unfoldable pub context_control :
      Control → Option ControlData → Context F → Context F × DriverState × Option ControlData
  context_control command dat s = control context_driver command dat s

  -- `hal_timerContextLoad`
  unfoldable pub context_load : Context F → Context F × DriverState
  context_load s =
      when_running (require_running context_driver s)
        (λ s'. (
          record s' {
            timer = record s'.timer {
              regs = record s'.timer.regs {
                tcnt = at2560timercontext_count_overflow - at2560timercontext_count_guard;
              };
            };
          },
          running,
        ))
        (λ s' state. (s', state))

  context-IsStandalone : IsStandalone context_driver
  unfolding context_driver context_get_status context_init context_start context_stop set_error
  context-IsStandalone = record {
    stopped = context_stopped;
    life_with = λ s l. refl;
    status_is = λ s. refl;
    init_is = λ s h. rw h refl;
    start_is = λ s h. rw h refl;
    stop_is = λ s. refl;
    stopped_status = λ s. refl;
  }

  -- The scheduling timer's operations respect the DEAD bit.
  pub context-IsDriver : IsDriver context_driver
  context-IsDriver = standalone-IsDriver context_driver context-IsStandalone
