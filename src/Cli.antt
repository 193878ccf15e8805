-- ===== src/Cli.antt =====
-- src/cli: the command that reorders experts.
pub mod Optimize
