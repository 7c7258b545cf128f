-- ===== src/Cli.antt =====
-- src/cli: the parsers, exports and checks of the command line, and the flows that run the probes.
pub mod Csv
pub mod Tables
pub mod Diagnose
pub mod Parallel
pub mod Sweep
pub mod Headers
pub mod Status
mod Examples
