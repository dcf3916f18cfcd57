-- ===== src/Cli.antt =====
-- crates/cli/src: the part of the command line that decides.
pub mod Changed
