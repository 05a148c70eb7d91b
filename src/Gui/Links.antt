-- ===== src/Gui/Links.antt =====
-- gui/src/link.rs: the links that the application imports and exports. A link is ASCII text, and what
-- is decoded from it is bytes. The parser of URLs, base64 and the serializer of form data are other
-- crates'; hexadecimal digits, UTF-8 and the numbers are the standard library's.
pub mod Types
pub mod Import
pub mod Export
pub mod Percent
pub mod Ink
pub mod Fields
pub mod Written
pub mod RoundTrip
