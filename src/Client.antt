-- ===== src/Client.antt =====
-- resumable_upload/client: the uploader, and the parts that do not touch the network.
pub mod Outcome
pub mod Network
pub mod Stats
pub mod Protocol
pub mod FileSlice
pub mod Uploader
pub mod Contract
pub mod UrlStorage
pub mod TusClient
