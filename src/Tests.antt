-- ===== src/Tests.antt =====
-- Concrete surroundings for the server, and the model run in them.
pub mod World
pub mod Accounts
pub mod Chats
pub mod Packets
pub mod Parts
pub mod Transfers
pub mod Channels
pub mod Life
pub mod Sharing
pub mod Delivering
pub mod Healthy
pub mod Crew
pub mod Together
pub mod Forwarding
