-- ===== src/Wire.antt =====
-- shared-common/common: the messages between the programs (protocols.h), their packages (utils.c),
-- the bytes on the wire (serializer.c), and the functions of utils.c on strings.
-- Memory is a list of bytes, and an access outside it a fault. `int` has 4 bytes, a pointer 8, the
-- low byte first, as the programs' machines have them.
pub mod Bytes
pub mod Protocol
pub mod Package
pub mod Message
pub mod Strings
mod Examples
