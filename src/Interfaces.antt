-- ===== src/Interfaces.antt =====
-- The contracts shared by every layer: srcs/interfaces/tm_runLevel.h, tm_threads.h, hal_drivers.h
-- and the error identifiers that the .err files declare.
use task_mate.Common.{ℕ, Bool, true, false}

-- `tm_run_level_t`, one byte that the code compares as a number
abbrev pub RunLevel : Type 0
RunLevel = ℕ

abbrev pub rl_run_none : RunLevel
rl_run_none = 0

abbrev pub rl_run_core : RunLevel
rl_run_core = 1

abbrev pub rl_run_driver : RunLevel
rl_run_driver = 2

abbrev pub rl_run_service : RunLevel
rl_run_service = 3

abbrev pub rl_run_user : RunLevel
rl_run_user = 4

abbrev pub rl_level_count : RunLevel
rl_level_count = 5

-- `tm_thread_status_bit_t`
abbrev pub thread_bit_initialized : ℕ
thread_bit_initialized = 2

abbrev pub thread_bit_dead : ℕ
thread_bit_dead = 3

abbrev pub thread_bit_yielded : ℕ
thread_bit_yielded = 4

-- `hal_driver_status_bit_t`
abbrev pub drv_bit_init : ℕ
drv_bit_init = 0

abbrev pub drv_bit_start : ℕ
drv_bit_start = 1

abbrev pub drv_bit_error : ℕ
drv_bit_error = 2

abbrev pub drv_bit_dead : ℕ
drv_bit_dead = 3

abbrev pub drv_address_none : ℕ
drv_address_none = 0xff

-- `err_codes_t`: the identifiers that the modelled code returns
pub data ErrCode : Type 0 where
  no_error null_pointer driver_not_found : ErrCode
  invalid_control invalid_value invalid_state not_initialized not_running dead dependency : ErrCode
  usart_rx_buffer_empty usart_rx_buffer_full usart_tx_buffer_full : ErrCode
  i2c_start_failed i2c_address_nack i2c_write_failed i2c_read_failed : ErrCode
  i2c_scan_complete i2c_scan_address_buffer_full : ErrCode
  rtc_time_out_of_range lcd_cursor_out_of_range : ErrCode

-- `error == ERR_NO_ERROR`
abbrev pub is_no_error : ErrCode → Bool
is_no_error no_error = true
is_no_error _ = false

-- `hal_driver_control_t`; `unknown` stands for a value beyond the enumeration.
pub data Control : Type 0 where
  init start stop rlset rlget setbit clearbit getbit getstatus getlasterror unknown : Control

-- `hal_driver_state_t`
pub data DriverState : Type 0 where
  off initialized running error dead : DriverState

-- `state == DRV_STATE_ERROR`, and the like
abbrev pub is_error : DriverState → Bool
is_error error = true
is_error _ = false

abbrev pub is_running : DriverState → Bool
is_running running = true
is_running _ = false

abbrev pub is_dead : DriverState → Bool
is_dead dead = true
is_dead _ = false

-- `hal_driver_control_data_t`. The source is a union of these members; no caller reads another
-- member than the one that was written last, so each has a place of its own.
pub record ControlData : Type 0 where
  pub run_level : RunLevel
  pub status_bit : ℕ
  pub bit_value : Bool
  pub error : ErrCode
