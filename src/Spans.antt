-- ===== src/Spans.antt =====
-- Frame-id intervals whose non-motion frames are missing: `_coalesce_id_spans` and
-- `Store.motion_only_spans` of compute/collection/store.py.
pub mod Coalesce
pub mod Union
pub mod MotionOnly
pub mod Coverage
