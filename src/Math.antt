-- ===== src/Math.antt =====
-- sigimora-math: the wrappers over the blstrs field and groups.
pub mod Field
pub mod Group
pub mod Suite
pub mod Pairing
pub mod Power
