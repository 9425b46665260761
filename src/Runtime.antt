-- ===== src/Runtime.antt =====
-- What the handlers run on: the context of a request, the parts of an nginx request that the
-- connector reads and writes, and the calls into libcoraza and nginx with their answers.
mod Types
mod Monad
mod Count
pub use Types.*
pub use Monad.*
pub use Count.*
