-- ===== src/Server/Session.antt =====
-- src/server.c, `collect_expire` to `server_candle_close`: the session, from the opening auction to the
-- close, with the orders that expire at it and the candles that end in it.
pub mod Expiry
pub mod Bells
pub mod Candles
unfoldable pub use Expiry.*
unfoldable pub use Bells.*
unfoldable pub use Candles.*
