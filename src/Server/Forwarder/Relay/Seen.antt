-- ===== src/Server/Forwarder/Relay/Seen.antt =====
-- The answers of a backend as the forwarder's own tests of the packets see them.
use haentgl.Prelude.{ℕ, ◌<◌, ◌≡◌, Bool, true, false, none, some, List, [], ◌∷◌, ◌++◌, length}
use haentgl.Extern.Winnow.{ok}
use haentgl.Extern.Flags.{client_deprecate_eof, server_more_results_exists}
use haentgl.Protocol.Packet.{
  Packet, is_ok_packet, is_err_packet, is_eof_packet, is_result_set_eof_packet,
  is_local_in_file_packet,
}
use haentgl.Protocol.Basic.{OkPacket, ok_packet, eof_server_status}
use haentgl.Protocol.Link.{Numbered}
use haentgl.Server.Environment.{Environment}
use haentgl.Server.Outcome.{done}
use haentgl.Server.Forwarder.{cursor_status}

-- The packet that closes the rows, with and without `CLIENT_DEPRECATE_EOF`.
abbrev pub closes : Bool → Packet → Bool
closes true p = is_result_set_eof_packet p
closes false p = is_eof_packet p

-- The first packet of a result set is of no other kind.
abbrev pub IsHead : Packet → Type 0
IsHead p =
    (is_ok_packet p ≡ false) × (is_err_packet p ≡ false) × (is_local_in_file_packet p ≡ false)

module _ (env : Environment) (capabilities : ℕ) where
  open env use {winnow, flags, from_utf8}
  open env.packets use {parse_err}

  abbrev deprecate_eof : Bool
  deprecate_eof = flags.has_capability capabilities client_deprecate_eof

  -- SeenRows with the packet that ends them, and the status that it carries.
  pub data SeenRows : List Numbered → ℕ → Type 0 where
    seen_err_end :
        {seq : ℕ} {p : Packet}
        → is_err_packet p ≡ true
        → parse_err capabilities p ≡ some tt
        → SeenRows ((seq, p) ∷ []) 0
    seen_eof_end :
        {seq status : ℕ} {p : Packet} {rest : List ℕ}
        → deprecate_eof ≡ false
        → is_err_packet p ≡ false
        → is_eof_packet p ≡ true
        → eof_server_status winnow flags from_utf8 p ≡ some (ok rest status)
        → SeenRows ((seq, p) ∷ []) status
    seen_ok_end :
        {seq : ℕ} {p : Packet} {rest : List ℕ} {ok_pkt : OkPacket}
        → deprecate_eof ≡ true
        → is_err_packet p ≡ false
        → is_result_set_eof_packet p ≡ true
        → ok_packet winnow flags from_utf8 p capabilities ≡ ok rest ok_pkt
        → SeenRows ((seq, p) ∷ []) ok_pkt.status_flags
    seen_row :
        {seq status : ℕ} {p : Packet} {ps : List Numbered}
        → 0 < length p
        → is_err_packet p ≡ false
        → closes deprecate_eof p ≡ false
        → SeenRows ps status
        → SeenRows ((seq, p) ∷ ps) status

  -- Column definitions up to their EOF packet.
  pub data SeenColumns : List Numbered → Packet → Type 0 where
    seen_columns_end :
        {seq : ℕ} {p : Packet} → is_eof_packet p ≡ true → SeenColumns ((seq, p) ∷ []) p
    seen_column :
        {seq : ℕ} {p last : Packet} {ps : List Numbered}
        → 0 < length p
        → is_eof_packet p ≡ false
        → SeenColumns ps last
        → SeenColumns ((seq, p) ∷ ps) last

  -- What follows the first packet of a result set.
  pub data SeenResultSet : List Numbered → ℕ → Type 0 where
    seen_short_result :
        {ps : List Numbered} {status : ℕ}
        → deprecate_eof ≡ true
        → SeenRows ps status
        → SeenResultSet ps status
    seen_cursor_result :
        {ps : List Numbered} {last : Packet} {status : ℕ}
        → deprecate_eof ≡ false
        → SeenColumns ps last
        → cursor_status env last ≡ done (some status)
        → SeenResultSet ps status
    seen_full_result :
        {cs ps : List Numbered} {last : Packet} {status : ℕ}
        → deprecate_eof ≡ false
        → SeenColumns cs last
        → cursor_status env last ≡ done none
        → SeenRows ps status
        → SeenResultSet (cs ++ ps) status

  -- The answer to a query: OK packets and result sets, where the status of each but the last says
  -- that another one follows, or an error at the end.
  pub data SeenAnswer : List Numbered → Type 0 where
    seen_err_answer :
        {seq : ℕ} {p : Packet}
        → is_err_packet p ≡ true
        → parse_err capabilities p ≡ some tt
        → SeenAnswer ((seq, p) ∷ [])
    seen_ok_answer :
        {seq : ℕ} {p : Packet} {rest : List ℕ} {ok_pkt : OkPacket}
        → is_ok_packet p ≡ true
        → ok_packet winnow flags from_utf8 p capabilities ≡ ok rest ok_pkt
        → flags.has_status ok_pkt.status_flags server_more_results_exists ≡ false
        → SeenAnswer ((seq, p) ∷ [])
    seen_ok_then :
        {seq : ℕ} {p : Packet} {rest : List ℕ} {ok_pkt : OkPacket} {ps : List Numbered}
        → is_ok_packet p ≡ true
        → ok_packet winnow flags from_utf8 p capabilities ≡ ok rest ok_pkt
        → flags.has_status ok_pkt.status_flags server_more_results_exists ≡ true
        → SeenAnswer ps
        → SeenAnswer ((seq, p) ∷ ps)
    seen_result_answer :
        {seq status : ℕ} {p : Packet} {ps : List Numbered}
        → 0 < length p
        → IsHead p
        → SeenResultSet ps status
        → flags.has_status status server_more_results_exists ≡ false
        → SeenAnswer ((seq, p) ∷ ps)
    seen_result_then :
        {seq status : ℕ} {p : Packet} {ps qs : List Numbered}
        → 0 < length p
        → IsHead p
        → SeenResultSet ps status
        → flags.has_status status server_more_results_exists ≡ true
        → SeenAnswer qs
        → SeenAnswer ((seq, p) ∷ (ps ++ qs))
