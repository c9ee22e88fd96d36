-- ===== src/Scripts.antt =====
-- scripts: the check of the claims ledger.
pub mod ClaimsCheck
pub mod GenReference
