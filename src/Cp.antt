-- ===== src/Cp.antt =====
-- src/proxy/src/cp: the control-plane target.
pub mod Activity
