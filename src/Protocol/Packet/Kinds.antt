-- ===== src/Protocol/Packet/Kinds.antt =====
-- The predicates on the kind of a packet.
use haentgl.Prelude.{ℕ, ◌+◌, ◌≤◌, [], ◌∷◌, arith, if◌then◌else◌}
use haentgl.Protocol.Packet.{
  Packet, is_eof_packet, is_result_set_eof_packet, is_ok_packet, is_err_packet,
  is_local_in_file_packet,
}

-- How many of the predicates hold.
abbrev pub kinds : Packet → ℕ
kinds p =
    (if is_eof_packet p then 1 else 0)
    + (if is_result_set_eof_packet p then 1 else 0)
    + (if is_ok_packet p then 1 else 0)
    + (if is_err_packet p then 1 else 0)
    + (if is_local_in_file_packet p then 1 else 0)

-- A packet is of one kind at most: no two of the five predicates hold of it.
pub at_most_one_kind : (p : Packet) → kinds p ≤ 1
unfolding is_eof_packet is_result_set_eof_packet is_ok_packet is_err_packet is_local_in_file_packet
at_most_one_kind [] = omega arith
at_most_one_kind (b ∷ bs) = ground arith
