-- ===== src/Edge.antt =====
-- The edge tier's outputs: edge/actuators/gpio.py and edge/server/night_light.py.
pub mod Gpio
pub mod NightLight
pub mod Tracking
pub mod Schedule
pub mod Throttle
pub mod Watchdog
pub mod Stalls
