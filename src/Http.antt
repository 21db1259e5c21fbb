-- ===== src/Http.antt =====
-- eink_http.c: what the client does to URLs and to the first bytes of a download, and the download of
-- a file.
pub mod Url
pub mod Download
