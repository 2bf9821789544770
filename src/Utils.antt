-- ===== src/Utils.antt =====
-- src/utils.c: hexadecimal and base64 text, and the rules for names. A character is its code; the
-- classes of <ctype.h> are those of the C locale.
pub mod Hex
pub mod Base64
pub mod Names
mod Tests
