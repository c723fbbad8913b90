-- ===== src/Examples.antt =====
-- Machines of the example programs (finitomata/examples). What they print is left aside.
pub mod Numbered
pub mod OrderWorkflow
pub mod Document
pub mod Turnstile
pub mod Worker
