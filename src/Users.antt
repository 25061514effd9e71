-- ===== src/Users.antt =====
-- The users of a tenant: app/services/user_service.py, app/api/routes/users.py and
-- app/api/dependencies/auth.py.
pub mod CurrentUser
pub mod Service
pub mod Versions
pub mod Sessions
pub mod Patching
pub mod Listing
pub mod Ordering
pub mod Pages
