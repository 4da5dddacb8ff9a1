-- ===== src/Http.antt =====
-- src/http_server.c: the HTTP interface of the server, over libmicrohttpd and cJSON.
pub mod Body
pub mod Answers
pub mod Handlers
pub mod Access
