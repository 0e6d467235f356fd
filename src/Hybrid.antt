-- ===== src/Hybrid.antt =====
-- Hybrid mode: which lane a packet takes, and which targets the server lets the TCP lane reach.
-- src/hybrid/classifier.h, classifier.c, and the access list and path parser of tcp_egress.c.
pub mod Cidr
pub mod Policy
pub mod Egress
mod Tests
