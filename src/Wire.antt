-- ===== src/Wire.antt =====
-- The wire contract of the stream's parts: shared/wire.py.
pub mod Text
pub mod Number
pub mod Part
pub mod Lines
pub mod Digits
pub mod Dict
pub mod RoundTrip
pub mod Unknown
pub mod Status
pub mod Answer
