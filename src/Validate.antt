-- ===== src/Validate.antt =====
-- src/validate/: loggers, validators as imperative code over any logger, and chaining.
pub mod Logger
pub mod Steps
pub mod Name
pub mod Key
pub mod Structure
pub mod Pedantic
pub mod Chain
pub mod Combined
pub mod Replay
pub mod Strict
pub mod Callbacks
