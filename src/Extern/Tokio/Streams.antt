-- ===== src/Extern/Tokio/Streams.antt =====
-- Concrete streams that meet the laws, for runs: a writer that takes at most `room` bytes at a
-- time, and a reader whose bytes arrive at most `step + 1` at a time.
use haentgl.Prelude.{
  ℕ, zero, suc, ◌≤◌, ◌<◌, ◌≡◌, refl, min, Option, some, List, [], ◌∷◌, ◌++◌, length, take, drop,
  arith, take-append-drop, length-take,
}
use haentgl.Extern.Tokio.{AsyncWrite, AsyncRead}

module _ (room : ℕ) where
  abbrev write_some : List ℕ → List ℕ → List ℕ → Option (ℕ × List ℕ)
  write_some w a b = let n = min room (length (a ++ b)) in some (n, w ++ take n (a ++ b))

  pub write_some_len :
      (w a b : List ℕ) (n : ℕ) (w' : List ℕ) → write_some w a b ≡ some (n, w') → n ≤ length (a ++ b)
  write_some_len w a b n w' h = ground arith

  pub write_some_sent :
      (w a b : List ℕ) (n : ℕ) (w' : List ℕ)
      → write_some w a b ≡ some (n, w')
      → w' ≡ w ++ take n (a ++ b)
  write_some_sent w a b n w' h = ground arith

  pub write_rest_sent : (w a w' : List ℕ) → some (w ++ a) ≡ some w' → w' ≡ w ++ a
  write_rest_sent w a w' h = cc

  pub flush_same : (w w' : List ℕ) → some w ≡ some w' → w' ≡ w
  flush_same w w' h = cc

  abbrev pub slow_writer : AsyncWrite
  slow_writer = record {
    Writer = List ℕ;
    sent = λ w. w;
    write_vectored = write_some;
    write_all = λ w a. some (w ++ a);
    flush = λ w. some w;
    write_vectored_len = write_some_len;
    write_vectored_sent = write_some_sent;
    write_all_sent = write_rest_sent;
    flush_sent = flush_same;
  }

module _ (step : ℕ) where
  abbrev read_some : List ℕ → ℕ → Option (List ℕ × List ℕ)
  read_some r room = let n = min room (suc step) in some (take n r, drop n r)

  pub read_some_len :
      (r : List ℕ) (room : ℕ) (bs r' : List ℕ) → read_some r room ≡ some (bs, r') → length bs ≤ room
  read_some_len r room bs r' h = ground (arith, length-take (min room (suc step)) r)

  pub read_some_pending :
      (r : List ℕ) (room : ℕ) (bs r' : List ℕ) → read_some r room ≡ some (bs, r') → r ≡ bs ++ r'
  read_some_pending r room bs r' h = ground (arith, take-append-drop (min room (suc step)) r)

  pub read_some_end :
      (r : List ℕ) (room : ℕ) (r' : List ℕ) → 0 < room → read_some r room ≡ some ([], r') → r ≡ []
  read_some_end [] room r' pos h = refl
  read_some_end (x ∷ r) zero r' pos h = absurd (omega arith)
  read_some_end (x ∷ r) (suc room) r' pos h =
      ground (arith, length-take (min (suc room) (suc step)) (x ∷ r))

  abbrev pub slow_reader : AsyncRead
  slow_reader = record {
    Reader = List ℕ;
    pending = λ r. r;
    read = read_some;
    read_len = read_some_len;
    read_pending = read_some_pending;
    read_end = read_some_end;
  }
