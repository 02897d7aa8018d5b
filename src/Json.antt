-- ===== src/Json.antt =====
-- JSON: `Serializer::serializeJSON` (nodebus/core/serializer.cpp) and the strings of its scanner
-- (nodebus/core/jsonparser/scanner.l).
pub mod Write
pub mod Escapes
pub mod Scan
pub mod Layout
pub mod Closed
pub mod Flags
