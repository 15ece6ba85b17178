-- ===== src/Server.antt =====
-- The server: src/Server/Server.h and src/Server/Server.cpp, one module for each group of packets.
pub mod State
pub mod Account
pub mod Messaging
pub mod Transfer
pub mod Process
pub mod KeepAlive
pub mod Threads
pub mod EventLoop
pub mod Workers
pub mod Start
