-- ===== src/R2.antt =====
-- deploy/worker/index.mjs: the R2 bridge. An upload is begun, written in pieces and finished; a download
-- is begun and read in pieces; both stand in `r2ops` under an integer id.
pub mod Values
pub mod Upload
pub mod Download
pub mod Listing
mod Tests
