-- ===== src/Js.antt =====
-- What the TypeScript sources use of JavaScript itself: thrown errors, asynchronous code, values
-- of unknown type, and numbers.
mod Async
mod Value
pub mod Double
pub mod Float
pub mod Laws
pub use Async.*
pub use Value.*
