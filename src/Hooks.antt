-- ===== src/Hooks.antt =====
-- internal/hookconfig: the hooks that bind a coding agent to Overgent, their command lines and the vendor's settings file.
pub mod Command
pub mod Quoting
pub mod RoundTrip
pub mod Delimiters
pub mod Commands
pub mod Managed
pub mod Cleaning
pub mod Profiles
pub mod Adoption
pub mod Settings
pub mod Groups
pub mod Binding
pub mod Grants
pub mod Tables
pub mod Bare
pub mod Reads
pub mod Stripped
pub mod Rebound
pub mod Foreign
pub mod Kept
pub mod Repeated
pub mod Installed
pub mod Again
pub mod Installation
pub mod Undone
pub mod Examples
pub mod FileExamples
