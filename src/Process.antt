-- ===== src/Process.antt =====
-- Backend/main.go: the command line, the checks of the configuration, the three commands, and the life
-- of the server that is started.
pub mod Config
pub mod Seed
pub mod Commands
pub mod Serving
pub mod Account
pub mod Login
pub mod Migrated
pub mod Life
