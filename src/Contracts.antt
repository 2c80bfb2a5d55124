-- ===== src/Contracts.antt =====
-- packages/contracts/src: the shared kernel. The enums, the saga commands and replies, the domain
-- events and the routing keys under which they are published.
mod Enums
mod Saga
mod Routing
unfoldable pub use Enums.*
unfoldable pub use Saga.*
unfoldable pub use Routing.*
