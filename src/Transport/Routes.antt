-- ===== src/Transport/Routes.antt =====
-- Backend/transport/http.go: what each route of ServeHTTP does.
pub mod Progress
pub mod Rooms
pub mod Players
