-- ===== src/Hcm.antt =====
-- src/hcm: the HCM simulation engine, and the clients that reach it in process and over HTTP.
pub mod Core
pub mod Client
pub mod HttpClient
