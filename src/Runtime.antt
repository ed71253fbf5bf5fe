-- ===== src/Runtime.antt =====
-- What the component of aegis-rust/src/component.rs stands on: the outside world as a parameter, the
-- component's state, and its methods as actions on that state.
mod Values
mod World
mod Actions
pub mod Hoare
pub use Values.{Json}
pub use World.*
unfoldable pub use Actions.*
