-- ===== src/Contents/Keeping.antt =====
-- Handlers that keep the session manager valid and bounded: StaticLib1/ContentsProcess.cpp and what handlers
-- call.
mod Rules
mod Actions
mod Tables
pub use Rules.*
pub use Actions.*
pub use Tables.*
