-- ===== src/Extern/ByteOrder.antt =====
-- The `byteorder` crate's little-endian writers.
use haentgl.Prelude.{ℕ, ◌<◌, ◌≡◌, refl, List, length}
use haentgl.Prelude.Words.{le_bytes_2, le_bytes_3, le_bytes_4}

pub record ByteOrder : Type 0 where
  -- The three bytes that `LittleEndian::write_u24` puts into its buffer.
  pub write_u24 : ℕ → List ℕ
  -- The bytes that `write_u16::<LittleEndian>` appends.
  pub write_u16 : ℕ → List ℕ
  -- The bytes that `write_u32::<LittleEndian>` appends.
  pub write_u32 : ℕ → List ℕ
  pub length-write_u16 : (n : ℕ) → length (write_u16 n) ≡ 2
  pub write_u24_lem : (n : ℕ) → n < 16777216 → write_u24 n ≡ le_bytes_3 n
  pub write_u32_lem : (n : ℕ) → n < 4294967296 → write_u32 n ≡ le_bytes_4 n
  pub write_u16_lem : (n : ℕ) → n < 65536 → write_u16 n ≡ le_bytes_2 n

-- A concrete writer that meets the laws.
abbrev pub little_endian : ByteOrder
little_endian = record {
  write_u24 = le_bytes_3;
  write_u16 = le_bytes_2;
  write_u32 = le_bytes_4;
  write_u32_lem = λ n h. refl;
  length-write_u16 = λ n. refl;
  write_u24_lem = λ n h. refl;
  write_u16_lem = λ n h. refl;
}
