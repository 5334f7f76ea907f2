-- ===== src/Lib.antt =====
-- TaskMate: a small preemptive kernel for the ATmega2560, its drivers, its C library and its command
-- line service.
--
-- The program is layered. The kernel (srcs/system/sysCore) keeps the thread database and switches
-- threads in the timer interrupt. The system calls (srcs/system/sysCall) are what threads call; they
-- run with interrupts off, so that each is one step beside the interrupts. The drivers (srcs/hal)
-- share a status byte, a run level, a last error and a control function. The C library
-- (srcs/tmLibc) reads its strings and writes its output through system calls. The services
-- (srcs/system/services) read command lines from the serial driver and call the system.
--
-- Which file models what:
-- - Common: numbers, lists and the bit macros of srcs/interfaces/tm_macros.h (Common/Bits).
-- - Interfaces: the enumerations and the control data of srcs/interfaces, and the error identifiers.
-- - Kernel/Threads: srcs/system/sysCore/sys_threads.c. `Db` is `threads` with `thread_current`, one
--   function for each `mod_thread…` function; a setter gives the new database and what it returns.
-- - Kernel/StackDepth: `mod_threadStackDepthGet` of the same file.
-- - Kernel/Scheduler: srcs/system/sysCore/sys_scheduler.c. `Kernel` is the database with the two
--   variables of the scheduler; `scheduler_rr` is `tm_schedulerRR`, whose `Outcome` says whether it
--   halts, never ends, or resumes a context. Kernel/Samples is a small system for the examples.
-- - SysCall/Threads: srcs/system/sysCall/sc_threads.c, and the transition system of its calls and the
--   interrupts (SysCall/Threads/Reach).
-- - SysCall/Drivers and SysCall/Scan: srcs/system/sysCall/sc_driver.c.
-- - SysCall/Console: srcs/system/sysCall/sc_string.c.
-- - TmLibc/Str and TmLibc/Snprintf: srcs/tmLibc/tm_string.c and srcs/tmLibc/stdio/tm_snprintf.c.
-- - Hal/Driver: what the drivers repeat, over a record of the operations in which they differ;
--   Hal/Driver/Standalone the status function of those that rest on no other. Of
--   srcs/hal/mcu/atmega2560, Hal/Usart is at2560_usart.c, Hal/I2c at2560_i2c.c, Hal/Gpio
--   at2560_gpio.c with srcs/system/sysCall/sc_gpio.c, Hal/Timer/Monotonic at2560_timerMonotonic.c
--   and Hal/Timer/Context at2560_timerContext.c. Hal/Rtc is srcs/hal/drivers/rtc/rtc_ZS042.c and
--   Hal/Lcd srcs/hal/drivers/lcd/lcd_AMC2004.c, both over the record of Hal/DrvI2c, which stands for
--   srcs/interfaces/drv_i2c.h and which `i2c_bus` of Hal/I2c fills. Hal/Rtc/Bench and Hal/Lcd/Bench
--   are devices for the examples.
-- - Services/ScliDate and Services/ScliThread: scli_date.c and scli_thread.c of
--   srcs/system/services/commands. Services/Scli: srcs/system/services/scli.c. Services/System:
--   srcs/system/services/system.c, `Ending` being how its startup ends.
-- - AutoCode: the tool of srcs/autoCode that reads init.rc and rewrites the tagged sources on the build
--   host. AutoCode/Tokenizer is tokenizer.c, AutoCode/AddModule initrcCommands/addModule.c,
--   AutoCode/Initrc parseInitrc.c with the other four files of initrcCommands, AutoCode/GlobalError
--   globalError.c, and AutoCode/ParseTag parseTag.c. `strtoul`, `realloc`, whether a path exists and
--   how the writers and the files answer are parameters. An error is counted and the work goes on, as
--   in the test mode of the tool; outside of it the first error ends the program.
--
-- How code became definitions: a `static` variable is a field of the state that a function takes and
-- gives back; an early return is a branch; an output pointer that may be NULL is a Boolean or an
-- Option; bytes and 16-bit words wrap where the code's do. `size_t` has 16 bits in the
-- formatter, as on the device, and INT_MAX is a parameter of it. A string is the list of its bytes below
-- the terminator. A NULL function pointer that is called, and a read outside of an array where the
-- source does one, are values of their own and never a default.
--
-- Fuel: the loop of `tm_schedulerRR` gets a round for each thread, all there are to
-- look at; the sampling loop of the stack depth gets a round for each usable word and one more; the
-- format loop a round for each byte of the format and one more; the loop that sends the serial buffer
-- 64 rounds, one more than the bytes it can hold; a scan of the command line 66, for 64 places;
-- the startup of the system 40 rounds, ten for each run level. The scan of the bus gets a round for
-- each address that is left, the tokenizer one for each word of a line and one more.
--
-- Not modelled: srcs/system/boot.c, which only calls the drivers and the scheduler, the commands but
-- `date` and `thread`, the ports to host systems and the assembly of the context switch, most of which
-- is calls of a host or register access. Of srcs/autoCode the files, the options and
-- the writers of the generated code, which are file input and output. The registers of the device are
-- variables of the drivers; the waits for the transmitter and for the two-wire interface are taken to
-- end. What the target's generated files wire and allocate is a parameter.
pub mod Common
pub mod Interfaces
pub mod Kernel
pub mod TmLibc
pub mod SysCall
pub mod Hal
pub mod Services
pub mod AutoCode
