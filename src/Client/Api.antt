-- ===== src/Client/Api.antt =====
-- client/src-tauri/src/api_client.rs: what the client and the API service exchange, the requests of
-- `ApiClient`, and the retry with refreshed tokens.
pub mod Types
pub mod Http
pub mod Requests
pub mod Refresh
pub mod Answers
