-- ===== src/Server/Stops.antt =====
-- src/server.c, the orders that wait: iceberg slices, stops with their one-cancels-other partners, and
-- price wakes. A print fires the stops and the wakes that it reached.
pub mod Resting
pub mod Firing
pub mod Wakes
unfoldable pub use Resting.*
unfoldable pub use Firing.*
unfoldable pub use Wakes.*
