-- ===== src/Http3.antt =====
-- src/http3_frames.c: QUIC variable-length integers, HTTP/3 frame headers, DATA and HEADERS frames.
-- An input (buffer, size) is the list of its `size` bytes; what is written to an output buffer is
-- the list of the bytes written from its start, and `none` is the returned 0 or false.
pub mod Varint
pub mod Frame
pub mod Headers
mod Tests
