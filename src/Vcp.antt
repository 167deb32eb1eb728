-- ===== src/Vcp.antt =====
-- The virtual COM port, firmware/src/vcp/vcp.c and firmware/src/vcp/usb.c: bytes from a UART go to the host
-- through one ring buffer, and bytes from the host to the UART through another.
pub mod Fifo
pub mod Coding
pub mod Device
pub mod Stream
pub mod Feed
pub mod Host
pub mod Descriptor
mod Tests
