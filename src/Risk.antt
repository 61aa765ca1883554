-- ===== src/Risk.antt =====
-- Risk factors (policy/risk_factor.go).
pub mod Compare
pub mod Factor
pub mod Adjust
pub mod Applied
pub mod Joined
pub mod Recorded
pub mod Merge
