-- ===== src/Safety.antt =====
-- The safety gate of core/safety.py: the class of shell commands and tools, and the
-- confirmation flow.
pub mod Confirm
pub mod Patterns
pub mod Shell
pub mod Tool
