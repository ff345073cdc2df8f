-- ===== src/Protocol/Reader/Buffer.antt =====
-- The buffer: what a read adds, and what stays.
use haentgl.Prelude.{
  ℕ, zero, suc, ◌+◌, ◌-◌, ◌*◌, max, ◌<◌, ◌≤◌, ◌≡◌, refl, sym, ap, ◌∙◌, List, [], ◌∷◌, ◌++◌, length,
  take, drop, replicate, arith, take-append_le, take-append_length, length-append, length-take,
  length-drop, length-replicate, append_assoc,
}
use haentgl.Extern.Winnow.{Winnow}
use haentgl.Extern.Tokio.{AsyncRead}
use haentgl.Protocol.Reader.{PacketReader, resize, window, make_room, store_read}

length-resize : (n : ℕ) (bytes : List ℕ) → length (resize n bytes) ≡ n
unfolding resize
length-resize n bytes = omega (
  arith,
  length-append (take n bytes) (replicate (n - length bytes) 0),
  length-take n bytes,
  length-replicate {A = ℕ} (n - length bytes) 0,
)

take-take : (k n : ℕ) (xs : List ℕ) → k ≤ n → take k (take n xs) ≡ take k xs
take-take zero n xs h = refl
take-take (suc k) zero xs h = absurd (omega arith)
take-take (suc k) (suc n) [] h = refl
take-take (suc k) (suc n) (x ∷ xs) h = rw (take-take k n xs (omega arith))

take-resize :
    (k n : ℕ) (bytes : List ℕ) → k ≤ n → k ≤ length bytes → take k (resize n bytes) ≡ take k bytes
unfolding resize
take-resize k n bytes h hk =
    take-append_le k (take n bytes) (replicate (n - length bytes) 0)
      (omega (arith, length-take n bytes))
    ∙ take-take k n bytes h

module _ (w : Winnow) (io : AsyncRead) where
  -- The unread bytes lie inside the buffer.
  abbrev pub Fits : PacketReader w io → Type 0
  Fits s = s.start + s.remaining ≤ length s.bytes

  pub length-window : (s : PacketReader w io) → Fits s → length (window w io s) ≡ s.remaining
  unfolding window
  length-window s h =
      omega (arith, length-take s.remaining (drop s.start s.bytes), length-drop s.start s.bytes)

  pub window_empty : (s : PacketReader w io) → s.remaining ≡ 0 → window w io s ≡ []
  unfolding window
  window_empty s h = ap (λ (k : ℕ). take k (drop s.start s.bytes)) h

  -- Making room keeps the unread bytes, and leaves room.
  pub make_room_lem :
      (size : ℕ) (s : PacketReader w io)
      → Fits s
      → 0 < size
      → (window w io (make_room w io size s) ≡ window w io s)
        × Fits (make_room w io size s)
        × (s.remaining < length (make_room w io size s).bytes)
  unfolding make_room window
  make_room_lem size s h pos =
      let bytes = drop s.start s.bytes in
      let room = max size (s.remaining * 2) in
      ground (
        arith,
        length-drop s.start s.bytes,
        length-resize room bytes,
        take-resize s.remaining room bytes,
      )

  -- A read appends to the unread bytes.
  pub store_read_lem :
      (bs : List ℕ) (r' : io.Reader) (s : PacketReader w io)
      → s.start ≡ 0
      → Fits s
      → (window w io (store_read w io bs r' s) ≡ window w io s ++ bs)
        × Fits (store_read w io bs r' s)
  unfolding store_read window
  store_read_lem bs r' s z h =
      let front = take s.remaining s.bytes in
      let back = drop (s.remaining + length bs) s.bytes in
      let e : length front ≡ s.remaining = omega (arith, length-take s.remaining s.bytes) in
      let n : length (front ++ bs) ≡ s.remaining + length bs =
        omega (arith, length-append front bs) in
      (
        rw (z, ← append_assoc front bs back)
            (ap (λ (k : ℕ). take k ((front ++ bs) ++ back)) (sym n)
              ∙ take-append_length (front ++ bs) back),
        omega (arith, length-append front (bs ++ back), length-append bs back),
      )
