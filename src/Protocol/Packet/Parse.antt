-- ===== src/Protocol/Packet/Parse.antt =====
-- What `full_packet` and `one_packet` accept.
use haentgl.Prelude.{
  ℕ, zero, suc, ◌+◌, ◌*◌, ◌<◌, ◌≤◌, ◌≡◌, ◌≢◌, refl, List, [], ◌∷◌, ◌++◌, length, take, drop, leb,
  arith, Bool-cases, ◌&&◌, ◌==◌, ◌⊎◌, inl, inr, take-append_length, drop-append_length,
  length-append, take-append-drop, length-take,
}
use haentgl.Extern.Winnow.{Winnow, ok, err, backtrack}
use haentgl.Protocol.Packet.{max_payload_len, full_packet, one_packet, full_packets}

module _ (w : Winnow) where
  -- `take` of a whole first part.
  pub take-append : (a b : List ℕ) (n : ℕ) → length a ≡ n → w.take n (a ++ b) ≡ ok b a
  take-append a b n h = rw (
    ← h,
    w.take_ok (length a) (a ++ b) (omega (arith, length-append a b)),
    take-append_length a b,
    drop-append_length a b,
  )

  pub full_packet_ok :
      (seq : ℕ) (bytes rest : List ℕ)
      → length bytes ≡ max_payload_len
      → full_packet w (0xff ∷ 0xff ∷ 0xff ∷ seq ∷ (bytes ++ rest)) ≡ ok rest (seq, bytes)
  unfolding full_packet
  full_packet_ok seq bytes rest h = rw (
    w.literal_ok (0xff ∷ 0xff ∷ 0xff ∷ []) (seq ∷ (bytes ++ rest)),
    take-append (seq ∷ []) (bytes ++ rest) 1 refl,
    take-append bytes rest max_payload_len h,
  )

  pub one_packet_ok :
      (a b c seq : ℕ) (bytes rest : List ℕ)
      → length bytes ≡ a + 256 * b + 65536 * c
      → one_packet w (a ∷ b ∷ c ∷ seq ∷ (bytes ++ rest)) ≡ ok rest (seq, bytes)
  unfolding one_packet
  one_packet_ok a b c seq bytes rest h = rw (
    w.le_u24_ok a b c (seq ∷ (bytes ++ rest)),
    take-append (seq ∷ []) (bytes ++ rest) 1 refl,
    take-append bytes rest _ h,
  )

  pub one_packet_nil : one_packet w [] ≡ err backtrack
  unfolding one_packet
  one_packet_nil = rw (w.le_u24_short [] (omega arith))

  -- No full packet where the three bytes of the length are not 0xff.
  pub full_packet_ne :
      (i : List ℕ) → take 3 i ≢ 0xff ∷ 0xff ∷ 0xff ∷ [] → full_packet w i ≡ err backtrack
  unfolding full_packet
  full_packet_ne i h = rw (w.literal_ne (0xff ∷ 0xff ∷ 0xff ∷ []) i h)

  full_packet_cut :
      (seq : ℕ) (tail : List ℕ)
      → length tail < max_payload_len
      → full_packet w (0xff ∷ 0xff ∷ 0xff ∷ seq ∷ tail) ≡ err backtrack
  unfolding full_packet
  full_packet_cut seq tail h = rw (
    w.literal_ok (0xff ∷ 0xff ∷ 0xff ∷ []) (seq ∷ tail),
    take-append (seq ∷ []) tail 1 refl,
    w.take_short max_payload_len tail h,
  )

  full_packet_bare : full_packet w (0xff ∷ 0xff ∷ 0xff ∷ []) ≡ err backtrack
  unfolding full_packet
  full_packet_bare = rw (w.literal_ok (0xff ∷ 0xff ∷ 0xff ∷ []) [], w.take_short 1 [] (omega arith))

  pub full_packet_three : (a b c : ℕ) → full_packet w (a ∷ b ∷ c ∷ []) ≡ err backtrack
  full_packet_three a b c = elim (Bool-cases (a == 255 && (b == 255 && c == 255))) [
    | inl e ↦ ground (arith, full_packet_bare)
    | inr e ↦ full_packet_ne (a ∷ b ∷ c ∷ []) (ground arith)
  ]

  -- A head of four bytes: the parsers are decided by the length bytes and by what follows.
  pub full_packet_head :
      (a b c seq : ℕ) (tail : List ℕ)
      → ((a ≡ 255) × (b ≡ 255) × (c ≡ 255) × (max_payload_len ≤ length tail))
        ⊎ (full_packet w (a ∷ b ∷ c ∷ seq ∷ tail) ≡ err backtrack)
  full_packet_head a b c seq tail = elim (Bool-cases (a == 255 && (b == 255 && c == 255))) [
    | inl e ↦ elim (Bool-cases (leb max_payload_len (length tail))) [
      | inl long ↦ inl (ground arith, ground arith, ground arith, ground arith)
      | inr short ↦ inr (ground (arith, full_packet_cut seq tail))
    ]
    | inr e ↦ inr (full_packet_ne (a ∷ b ∷ c ∷ seq ∷ tail) (ground arith))
  ]

  pub one_packet_short :
      (a b c seq : ℕ) (tail : List ℕ)
      → length tail < a + 256 * b + 65536 * c
      → one_packet w (a ∷ b ∷ c ∷ seq ∷ tail) ≡ err backtrack
  unfolding one_packet
  one_packet_short a b c seq tail h =
      rw (w.le_u24_ok a b c (seq ∷ tail), take-append (seq ∷ []) tail 1 refl, w.take_short _ tail h)

  one_packet_long :
      (a b c seq : ℕ) (tail : List ℕ)
      → a + 256 * b + 65536 * c ≤ length tail
      → one_packet w (a ∷ b ∷ c ∷ seq ∷ tail)
        ≡ ok (drop (a + 256 * b + 65536 * c) tail) (seq, take (a + 256 * b + 65536 * c) tail)
  unfolding one_packet
  one_packet_long a b c seq tail h =
      rw (w.le_u24_ok a b c (seq ∷ tail), take-append (seq ∷ []) tail 1 refl, w.take_ok _ tail h)

  -- What `one_packet` has taken when it succeeds.
  pub one_packet_inv :
      (i rest : List ℕ) (seq : ℕ) (p : List ℕ)
      → one_packet w i ≡ ok rest (seq, p)
      → (a : ℕ) × (b : ℕ) × (c : ℕ) × (i ≡ a ∷ b ∷ c ∷ seq ∷ (p ++ rest))
        × (length p ≡ a + 256 * b + 65536 * c)
  unfolding one_packet
  one_packet_inv [] rest seq p h = cc (h, w.le_u24_short [] (omega arith))
  one_packet_inv (a ∷ []) rest seq p h = cc (h, w.le_u24_short (a ∷ []) (omega arith))
  one_packet_inv (a ∷ b ∷ []) rest seq p h = cc (h, w.le_u24_short (a ∷ b ∷ []) (omega arith))
  one_packet_inv (a ∷ b ∷ c ∷ []) rest seq p h =
      cc (h, w.le_u24_ok a b c [], w.take_short 1 [] (omega arith))
  one_packet_inv (a ∷ b ∷ c ∷ s ∷ tail) rest seq p h =
      let n = a + 256 * b + 65536 * c in
      elim (Bool-cases (leb n (length tail))) [
        | inl long ↦ (
          a,
          b,
          c,
          ground (arith, one_packet_long a b c s tail, take-append-drop n tail),
          ground (arith, one_packet_long a b c s tail, length-take n tail),
        )
        | inr short ↦ ground (arith, one_packet_short a b c s tail)
      ]

  -- The loop over full packets, a round at a time.
  pub full_packets_step :
      (g : ℕ) (i next : List ℕ) (r : ℕ × List ℕ)
      → full_packet w i ≡ ok next r
      → full_packets w (suc g) i ≡ (r ∷ (full_packets w g next).0, (full_packets w g next).1)
  unfolding full_packets
  full_packets_step g i next r h = rw (h, full_packets)

  pub full_packets_stop :
      (g : ℕ) (i : List ℕ) → full_packet w i ≡ err backtrack → full_packets w g i ≡ ([], i)
  unfolding full_packets
  full_packets_stop zero i h = refl
  full_packets_stop (suc g) i h = rw (h, full_packets)

  -- The only failure of `one_packet` is `Backtrack`.
  pub one_packet_cases :
      (i : List ℕ)
      → ((rest : List ℕ) × (r : ℕ × List ℕ) × (one_packet w i ≡ ok rest r))
        ⊎ (one_packet w i ≡ err backtrack)
  unfolding one_packet
  one_packet_cases [] = inr one_packet_nil
  one_packet_cases (a ∷ []) = inr (rw (w.le_u24_short (a ∷ []) (omega arith)))
  one_packet_cases (a ∷ b ∷ []) = inr (rw (w.le_u24_short (a ∷ b ∷ []) (omega arith)))
  one_packet_cases (a ∷ b ∷ c ∷ []) =
      inr (rw (w.le_u24_ok a b c [], w.take_short 1 [] (omega arith)))
  one_packet_cases (a ∷ b ∷ c ∷ s ∷ tail) =
      elim (Bool-cases (leb (a + 256 * b + 65536 * c) (length tail))) [
        | inl long ↦ inl (_, _, one_packet_long a b c s tail (ground arith))
        | inr short ↦ inr (one_packet_short a b c s tail (ground arith))
      ]
