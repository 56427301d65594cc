-- ===== src/App.antt =====
-- src/app.rs: the application's data, and the session that every SQL path goes through.
pub mod Data
pub mod Session
