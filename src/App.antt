-- ===== src/App.antt =====
-- The app itself: FirebaseLogin/FirebaseLogin (Swift).
pub mod Client
pub mod Form
pub mod Login
pub mod Store
mod Tests
