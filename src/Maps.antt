-- ===== src/Maps.antt =====
-- Go's map[K]V as an association list, and map[K]struct{} as a map into the unit.
pub mod Defs
pub mod Count
pub mod Dedupe
unfoldable pub use Defs.{Map, lookup, store, delete, contains, is_some}
pub use Defs.{
  lookup-store, lookup-delete, contains-store, contains-delete, IsDistinct, store-IsDistinct,
  delete-IsDistinct,
}
