-- ===== src/Serde.antt =====
-- JSON values as the crate serde_json has them, for the types of src/mqtt/command.rs and
-- src/mqtt/message.rs. An object keeps its entries in the order in which they were written, so that
-- a key may stand there twice.
mod Data
mod Derived
mod Reference
mod Tree
unfoldable pub use Data.*
unfoldable pub use Derived.*
unfoldable pub use Reference.*
unfoldable pub use Tree.*
