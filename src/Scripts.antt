-- ===== src/Scripts.antt =====
-- src/scripts: the two checks that an operator runs against a deployment.
pub mod VerifySetup
pub mod LoadTest
