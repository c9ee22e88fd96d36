-- ===== src/Controlplane.antt =====
-- The package controlplane: the policy cache, the static provider and the remote provider.
pub mod Cache
pub mod Static
pub mod Remote
