-- ===== src/Extract.antt =====
-- app/pipeline/extract and app/pipeline/htmlscan.py: what is read off a page's text.
pub mod Cloudflare
pub mod Blocks
mod Tests
