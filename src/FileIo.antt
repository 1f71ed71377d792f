-- ===== src/FileIo.antt =====
-- host/src/file_io.cpp and host/inc/file_io.hpp: the requests by which a guest works on files. A
-- request is a structure in guest memory: an OUT gives its address, and an IN reads its result.
-- The operations stand over a parameter for the host (FileIo/Host).
pub mod Host
pub mod Names
pub mod Flags
pub mod State
pub mod Table
pub mod Private
pub mod Reopened
mod Taken
pub mod CopyOnWrite
pub mod Valid
pub mod Preserved
pub mod Answers
pub mod Tests
pub mod Requests
pub mod Port
pub mod Ledger
pub mod Confined
