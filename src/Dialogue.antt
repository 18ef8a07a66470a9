-- ===== src/Dialogue.antt =====
-- The plugins that connect to a service and exchange lines with it.
pub mod Common
pub mod Talk
pub mod Closing
pub mod Waiting
pub mod Script
pub mod Conforms
pub mod Pop
pub mod Imap
pub mod Ftp
pub mod Nntp
pub mod Ircd
pub mod Telnet
pub mod Banner
pub mod Smtp
pub mod Ssh
pub mod TcpPort
pub mod UdpPort
pub mod Sip
pub mod Jabber
pub mod Zookeeper
pub mod Probes
pub mod Stream
pub mod Resources
pub mod Prevails
