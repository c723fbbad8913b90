-- ===== src/Macro.antt =====
-- The procedural macro `finitomata` (finitomata_macro/src): it parses a diagram while the user's program
-- is compiled, validates it, and generates the types and the graph.
pub mod Attributes
pub mod Chars
pub mod Codegen
pub mod Parser
pub mod Validation
