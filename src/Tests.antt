-- ===== src/Tests.antt =====
-- Runs on concrete inputs, and the results at inputs that meet their conditions.
mod Codec
mod Peers
mod Services
mod Datagrams
mod Window
mod Ports
mod Remotes
mod Closing
mod Ping
mod Direct
mod Pairs
mod Links
