-- ===== src/Guest.antt =====
-- guest/: the program that runs inside a virtual machine. What its accesses to ports and the memory
-- around it do is a parameter (Ports): guest/inc/io.h is inline assembly.
pub mod Ports
pub mod File
pub mod OnHost
pub mod Interrupts
pub mod Irqs
pub mod Start
pub mod Ends
pub mod Tables
pub mod Dispatch
pub mod Gates
pub mod Sent
pub mod Upload
pub mod Received
pub mod Download
mod Tests
mod UploadTests
mod DownloadTests
