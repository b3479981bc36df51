-- ===== src/Tests.antt =====
-- Runs at concrete inputs.
mod Blobs
mod Books
mod Queues
mod Server
mod Stores
mod Times
