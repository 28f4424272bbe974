-- ===== src/Http2.antt =====
-- src/http_parse/http2.c: HTTP/2 connections. `Frame` is the form of a frame, `Output` how frames
-- leave through `bio_write`, `Body` how a stream sends its body under flow control.
pub mod Frame
pub mod Output
pub mod State
pub mod Body
pub mod Control
pub mod Receive
pub mod Settings
pub mod Headers
pub mod Reader
pub mod Start
mod Runs
