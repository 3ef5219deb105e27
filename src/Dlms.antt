-- ===== src/Dlms.antt =====
-- drivers/dlms/: the meter protocol.
pub mod Bytes
pub mod Frame
pub mod Pdu
pub mod Scalars
