-- ===== src/Server.antt =====
-- The package server: what it keeps of the target, and the system calls it makes.
pub mod Kernel
pub mod Breakpoints
pub mod Waiting
pub mod Process
pub mod Files
pub mod Location
pub mod Frames
pub mod Typedefs
pub mod Peek
pub mod Value
pub mod Printing
pub mod Printer
pub mod Variables
pub mod Statuses
pub mod Goroutines
