-- ===== src/Wire.antt =====
-- `parameter_bytestream_t` of src/server/plugins/api.hxx: the wire format of parameters.
pub mod Result
pub mod Crc
pub mod Writer
pub mod Reader
pub mod Numbers
pub mod Encode
pub mod Writes
pub mod Stored
pub mod Reads
pub mod Scalars
pub mod Decoded
pub mod RoundTrip
pub mod Leaves
pub mod Total
mod Tests
