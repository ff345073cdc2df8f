-- ===== src/Protocol/Packet.antt =====
-- Packets and their parser: src/proxy/src/protocol/mysql/packet/mod.rs.
pub mod Parse
pub mod Prefix
pub mod Kinds
use haentgl.Prelude.{
  ℕ, zero, suc, ◌+◌, ◌<◌, ◌≤◌, Bool, true, false, not, ◌&&◌, Option, none, some, List, [], ◌∷◌,
  ◌++◌, length, leb, ltb, ◌==◌, if◌then◌else◌,
}
use haentgl.Prelude.Words.{add_u8}
use haentgl.Extern.Winnow.{Winnow, IResult, ok, err, ◌>>=◌}

-- constants.rs.
abbrev pub max_payload_len : ℕ
max_payload_len = 16777215

abbrev pub packet_header_len : ℕ
packet_header_len = 4

-- `Packet(Vec<u8>)`.
abbrev pub Packet : Type 0
Packet = List ℕ

-- `seq[0]`: `take(1u8)` has just returned a slice of one byte.
abbrev pub seq_byte : List ℕ → ℕ
seq_byte [] = 0
seq_byte (b ∷ bs) = b

-- `!self.0.is_empty() && self.0[0] == header`.
abbrev pub starts_with : ℕ → Packet → Bool
starts_with header [] = false
starts_with header (b ∷ bs) = b == header

unfoldable pub is_eof_packet : Packet → Bool
is_eof_packet p = starts_with 0xfe p && leb (length p) 5

unfoldable pub is_result_set_eof_packet : Packet → Bool
is_result_set_eof_packet p = starts_with 0xfe p && (leb 7 (length p) && ltb (length p) 0xffffff)

unfoldable pub is_ok_packet : Packet → Bool
is_ok_packet p = starts_with 0x00 p

unfoldable pub is_err_packet : Packet → Bool
is_err_packet p = starts_with 0xff p

unfoldable pub is_local_in_file_packet : Packet → Bool
is_local_in_file_packet p = starts_with 0xfb p

-- The check of the loop over the full packets; `prev_seq + 1` is on `u8`.
abbrev pub follows : Option ℕ → ℕ → Bool
follows none seq = true
follows (some prev_seq) seq = seq == add_u8 prev_seq 1

-- The loop over the full packets with its `assert_eq!`: `none` is the panic of a gap in the
-- sequence numbers.
unfoldable pub combine : Option ℕ → List ℕ → List (ℕ × List ℕ) → List ℕ → Option (List ℕ)
combine prev_seq pkt_data [] last_p = some (pkt_data ++ last_p)
combine prev_seq pkt_data ((seq, p) ∷ rest) last_p =
    if follows prev_seq seq then combine (some seq) (pkt_data ++ p) rest last_p else none

-- The end of `packet`: a failure of the last packet is passed on, else the payloads are joined.
abbrev pub finish : List (ℕ × List ℕ) → IResult (ℕ × List ℕ) → Option (IResult (ℕ × Packet))
finish fulls (err e) = some (err e)
finish fulls (ok input (last_seq, last_p)) = elim (combine none [] fulls last_p) [
  | none ↦ none
  | some pkt ↦ some (ok input (last_seq, pkt))
]

module _ (w : Winnow) where
  pub full_packet : List ℕ → IResult (ℕ × List ℕ)
  full_packet i = do
    (i, tag) ← w.literal (0xff ∷ 0xff ∷ 0xff ∷ []) i
    (i, seq) ← w.take 1 i
    (i, bytes) ← w.take max_payload_len i
    ok i (seq_byte seq, bytes)

  pub one_packet : List ℕ → IResult (ℕ × List ℕ)
  one_packet i = do
    (i, size) ← w.le_u24 i
    (i, seq) ← w.take 1 i
    (i, bytes) ← w.take size i
    ok i (seq_byte seq, bytes)

  -- `while let Ok((next_input, result)) = full_packet(input)`. Each round takes four bytes at least,
  -- so the length of the input is enough fuel.
  pub full_packets : ℕ → List ℕ → List (ℕ × List ℕ) × List ℕ
  full_packets zero input = ([], input)
  full_packets (suc fuel) input = elim (full_packet input) [
    | ok next_input result ↦ let more = full_packets fuel next_input in (result ∷ more.0, more.1)
    | err e ↦ ([], input)
  ]

  -- `none` is a panic.
  unfoldable pub packet : List ℕ → Option (IResult (ℕ × Packet))
  packet i = let fulls = full_packets (length i) i in finish fulls.0 (one_packet fulls.1)
