-- ===== src/Api.antt =====
-- api/: requests and responses, and the handlers of the routes.
pub mod Schemas
pub mod Pagination
pub mod Errors
pub mod Routes
