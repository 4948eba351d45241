-- ===== src/Prelude/Maps.antt =====
-- Hash maps: `std::collections::HashMap` and the concurrent `DashMap` of the crate dashmap. Their
-- operations are a parameter of the models, and what the code relies on are the laws.
mod Interface
mod Assoc
unfoldable pub use Interface.*
unfoldable pub use Assoc.*
