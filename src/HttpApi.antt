-- ===== src/HttpApi.antt =====
-- src/common/http_api.cpp: the HTTP request, its basic authentication, and the parsing of the response.
pub mod Base64
pub mod Rfc4648
pub mod Response
pub mod Status
pub mod Request
