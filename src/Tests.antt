-- ===== src/Tests.antt =====
-- Runs of the definitions on concrete inputs, and the theorems at concrete inputs.
mod Examples
mod Tcpip
mod OpenFlows
mod Demux
mod Files
mod Datalink
mod AddressTree
mod Http
mod Netviz
mod PcapWriter
mod Commas
mod Safety
