-- ===== src/Tcpip.antt =====
-- src/tcpip.h and src/tcpip.cpp: one direction of a TCP connection and its transcript file.
pub mod File
pub mod Shift
pub mod State
pub mod Index
pub mod Store
