-- ===== src/Py.antt =====
-- What the sources use of Python: integers, bytes, dicts, UTF-8, dynamic values, exceptions.
pub mod Result
pub mod Int
pub mod Bytes
pub mod Decimal
pub mod Dict
pub mod Json
pub mod Space
pub mod Sorted
pub mod Utf8
pub mod Value
