-- ===== src/Command.antt =====
-- cmd/otherlode-collector: the program's settings, its routes and its subcommand.
pub mod Settings
pub mod Tokens
pub mod ForwardKey
pub mod Forwarding
pub mod Limits
pub mod Stamps
pub mod Redacting
pub mod Routes
pub mod Sinks
pub mod Probe
pub mod Start
pub mod Tests
