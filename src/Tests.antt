-- ===== src/Tests.antt =====
-- Runs of the development at concrete inputs. The data below is shared by the modules under this one.
pub mod Packets
pub mod SessionList
pub mod Servers
pub mod Jobs
pub mod Chats
pub mod Matches
pub mod Queries
pub mod Frames
pub mod Running
pub mod Whole
pub mod Locking
pub mod Starting
pub mod Joined
