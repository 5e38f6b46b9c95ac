-- ===== src/Web.antt =====
-- apps/web/src: the logic of the web client that is independent of the browser.
pub mod Retry
pub mod Thread
