-- ===== src/Net.antt =====
-- mart-netlib: addresses, ports and endpoints of IPv4 and the byte order they are kept in, the port
-- layer over the calls of the system, and the sockets over the port layer.
pub mod ByteOrder
pub mod Failure
pub mod Address
pub mod AddressV4
pub mod Port
pub mod Endpoint
pub mod Results
pub mod Simulated
pub mod Enums
pub mod Native
pub mod PortLayer
pub mod Transfer
pub mod Sockaddrs
pub mod AddressText
pub mod AddrInfo
pub mod Timeouts
pub mod Socket
pub mod Throws
pub mod HighLevel
pub mod Dgram
pub mod Udp
pub mod Tcp
mod Tests
mod LayerTests
