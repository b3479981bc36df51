-- ===== src/Server/Replies.antt =====
-- src/server.c, `stream_roster_rebuild` to `server_stream`: what goes out to the clients. The views of
-- the book are derived when a reply first needs them (src/mbp.c with its blobs).
pub mod Views
pub mod Deliver
pub mod Stream
unfoldable pub use Views.*
unfoldable pub use Deliver.*
unfoldable pub use Stream.*
