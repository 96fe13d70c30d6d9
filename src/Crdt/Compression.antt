-- ===== src/Crdt/Compression.antt =====
-- `compressCrdtSnapshot` of client/src/crdt/snapshotCompression.ts. The browser's gzip stream and
-- base64 are parameters.
use syncode.Base.{
  ℕ, Bool, Option, none, some, ◌++◌, ◌⊎◌, inl, inr, JsString, units, ltb, length, if◌then◌else◌,
}

abbrev pub compressed_snapshot_prefix : JsString
compressed_snapshot_prefix = units "gzip:v1:"

abbrev pub max_expanded_snapshot_bytes : ℕ
max_expanded_snapshot_bytes = 16777216

abbrev pub max_compressed_snapshot_base64_bytes : ℕ
max_compressed_snapshot_base64_bytes = 5242880

-- `gzip` gives the base64 text of the compressed bytes, or none when the stream fails.
pub record CompressionPlatform : Type 0 where
  pub has_compression_stream : Bool
  pub byte_length : JsString → ℕ
  pub gzip : JsString → Option JsString

pub data CompressionError : Type 0 where
  not_supported : CompressionError
  snapshot_too_large : CompressionError
  stream_failed : CompressionError
  encoded_too_large : CompressionError

pub record Compressed : Type 0 where
  pub value : JsString
  pub snapshot_bytes : ℕ
  pub compressed_bytes : ℕ

module _ (platform : CompressionPlatform) where
  abbrev pub encoded_snapshot : ℕ → Option JsString → CompressionError ⊎ Compressed
  encoded_snapshot snapshot_bytes none = inl stream_failed
  encoded_snapshot snapshot_bytes (some encoded) =
      let value = compressed_snapshot_prefix ++ encoded in
      if ltb max_compressed_snapshot_base64_bytes (length encoded)
      then inl encoded_too_large
      else inr (record {
        value = value;
        snapshot_bytes = snapshot_bytes;
        compressed_bytes = platform.byte_length value;
      })

  unfoldable pub compress_crdt_snapshot : JsString → CompressionError ⊎ Compressed
  compress_crdt_snapshot snapshot =
      let snapshot_bytes = platform.byte_length snapshot in
      if platform.has_compression_stream
      then (if ltb max_expanded_snapshot_bytes snapshot_bytes
          then inl snapshot_too_large
          else encoded_snapshot snapshot_bytes (platform.gzip snapshot))
      else inl not_supported
