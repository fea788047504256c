-- ===== src/Model.antt =====
-- minifleet/model.py: the data that the fleet keeps, from the intent to the evidence.
mod Number
mod Order
mod Json
mod State
mod Records
mod Ledger
pub mod Codec
unfoldable pub use Number.*
pub use Order.*
unfoldable pub use Json.*
pub use State.*
pub use Records.*
unfoldable pub use Ledger.*
