-- ===== src/Hpack.antt =====
-- src/http_parse/hpack.c: header compression for HTTP/2 (RFC 7541). `Integer` and `Strings` are
-- the two primitive formats, `Table` the static and the dynamic table, `Header` a whole field.
pub mod Integer
pub mod Huffman
pub mod Table
pub mod Strings
pub mod Header
mod Runs
