-- ===== src/Nodes.antt =====
-- nodes/: the pairing handshake of the nodes and their commands.
pub mod Pairing
