-- ===== src/Kyc.antt =====
-- app/services/kyc.py: the central object of the platform, in three modules of operations
-- (Session, Decide, Public), and the modules of their laws.
pub mod Session
pub mod Decide
pub mod Public
pub mod Minimal
pub mod Opened
pub mod Evaluate
pub mod Checks
pub mod Corrections
