-- ===== src/Netviz.antt =====
-- src/netviz: the histograms behind the one-page report.
pub mod Ports
pub mod Time
pub mod Addresses
pub mod Report
