-- ===== src/Routing/Laws.antt =====
-- What is proved of the routing of flows.
pub mod Subdomains
pub mod Chosen
pub mod Known
pub mod Spelling
pub mod Blocked
