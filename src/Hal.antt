-- ===== src/Hal.antt =====
-- srcs/hal: the peripheral drivers.
pub mod Driver
pub mod DrvI2c
pub mod I2c
pub mod Usart
pub mod Rtc
pub mod Lcd
pub mod Timer
pub mod Gpio
