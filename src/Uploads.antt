-- ===== src/Uploads.antt =====
-- The uploaded files: app/services/storage_service.py with the checks and the scanner it calls,
-- app/services/upload_verification_service.py and app/api/routes/files.py.
pub mod Validation
pub mod ObjectKeys
pub mod Spool
pub mod Stores
pub mod Access
pub mod Content
pub mod Genuine
pub mod Service
pub mod Handlers
pub mod Rows
pub mod Soundness
pub mod Changes
pub mod Lifecycle
pub mod Serving
pub mod Acceptance
pub mod Deletion
