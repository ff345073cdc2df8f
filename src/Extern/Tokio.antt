-- ===== src/Extern/Tokio.antt =====
-- tokio's asynchronous byte streams, as the packet code awaits them.
pub mod Streams
use haentgl.Prelude.{ℕ, ◌≤◌, ◌<◌, ◌≡◌, Option, some, none, List, [], ◌++◌, length, take}

-- The write half of a connection. `none` is an I/O error.
pub record AsyncWrite : Type 1 where
  pub Writer : Type 0
  -- The bytes handed over so far.
  pub sent : Writer → List ℕ
  -- How many bytes of the two slices, taken one after the other, were written.
  pub write_vectored : Writer → List ℕ → List ℕ → Option (ℕ × Writer)
  pub write_all : Writer → List ℕ → Option Writer
  pub flush : Writer → Option Writer
  pub write_vectored_len :
      (w : Writer) (a b : List ℕ) (n : ℕ) (w' : Writer)
      → write_vectored w a b ≡ some (n, w')
      → n ≤ length (a ++ b)
  pub write_vectored_sent :
      (w : Writer) (a b : List ℕ) (n : ℕ) (w' : Writer)
      → write_vectored w a b ≡ some (n, w')
      → sent w' ≡ sent w ++ take n (a ++ b)
  pub write_all_sent :
      (w : Writer) (a : List ℕ) (w' : Writer) → write_all w a ≡ some w' → sent w' ≡ sent w ++ a
  pub flush_sent : (w w' : Writer) → flush w ≡ some w' → sent w' ≡ sent w

-- The read half. `read` is given the room in the buffer; an empty answer is the end of the stream.
-- `none` is an I/O error.
pub record AsyncRead : Type 1 where
  pub Reader : Type 0
  -- The bytes still to come before the end of the stream.
  pub pending : Reader → List ℕ
  pub read : Reader → ℕ → Option (List ℕ × Reader)
  pub read_len :
      (r : Reader) (room : ℕ) (bs : List ℕ) (r' : Reader)
      → read r room ≡ some (bs, r')
      → length bs ≤ room
  pub read_pending :
      (r : Reader) (room : ℕ) (bs : List ℕ) (r' : Reader)
      → read r room ≡ some (bs, r')
      → pending r ≡ bs ++ pending r'
  pub read_end :
      (r : Reader) (room : ℕ) (r' : Reader)
      → 0 < room
      → read r room ≡ some ([], r')
      → pending r ≡ []
