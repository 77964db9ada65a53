-- ===== src/BinaryReader.antt =====
-- The binary reader (src/binary-reader.cc, src/binary-reader.h, src/binary.h).

pub mod State
pub mod Read
pub mod Kinds
pub mod Init
pub mod Body
pub mod Subsections
pub mod Linking
pub mod Names
pub mod Imports
pub mod Sections
pub mod Module
pub mod Within
pub mod Errors
pub mod Written
pub mod Memories
mod Runs
