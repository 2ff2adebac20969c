-- ===== src/Cli.antt =====
-- cmd/agent/main.go: the command line, which asks for a connection, then for questions.
pub mod Format
pub mod Table
pub mod Escape
pub mod Console
pub mod Wizard
pub mod Ask
pub mod Main
