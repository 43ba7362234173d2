-- ===== src/Codec.antt =====
-- src/codec.rs: wire frames, deterministic CBOR and the wire forms of trees, commits and heads.
pub mod Frame
pub mod Utf8
pub mod Cbor
pub mod Fields
pub mod TreeWire
pub mod CommitWire
pub mod HeadWire
pub mod Wires
