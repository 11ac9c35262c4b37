-- ===== src/Usecase.antt =====
-- Backend/usecase: the catalogs that the server owns, and the service over the store.
pub mod Quests
pub mod Maps
pub mod Manifest
pub mod Service
pub mod Stores
pub mod Calls
pub mod Admission
pub mod Placement
pub mod GivenBack
