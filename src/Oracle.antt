-- ===== src/Oracle.antt =====
-- The always-on worker that sweeps new frames for a subject: compute/learning/yolo_oracle.py.
pub mod Worker
pub mod Tick
pub mod Tiles
pub mod Seeded
