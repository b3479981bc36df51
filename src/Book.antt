-- ===== src/Book.antt =====
-- src/ob.c and include/ob.h: the order book.
pub mod Types
pub mod Level
pub mod Cancel
pub mod Expire
pub mod Range
pub mod Copy
pub mod Change
pub mod Position
pub mod Shape
pub mod Pull
