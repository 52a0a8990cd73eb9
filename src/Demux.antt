-- ===== src/Demux.antt =====
-- src/tcpdemux.h and src/tcpdemux.cpp: the demultiplexer of TCP flows.
pub mod Os
pub mod State
pub mod Rules
pub mod Files
pub mod Flows
pub mod Invariant
pub mod Segment
pub mod Tcp
pub mod Packet
