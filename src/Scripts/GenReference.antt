-- ===== src/Scripts/GenReference.antt =====
-- scripts/gen_reference.go, the documents that it writes. What it collects from the parsed sources is
-- an argument here. A buffer is the list of the texts that are written to it, in their order.
pub mod Tables
pub mod Documents
pub mod Safety
pub mod Laws
