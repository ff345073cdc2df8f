-- ===== src/Server/Forwarder.antt =====
-- The forwarders: src/proxy/src/server/forwarder/mod.rs and query_forward.rs.
pub mod Answer
pub mod Relay
use haentgl.Prelude.{
  ℕ, zero, suc, Bool, true, false, Option, none, some, List, [], ◌∷◌, ◌+◌, ◌*◌, if◌then◌else◌, not,
}
use haentgl.Extern.Winnow.{IResult, ok, err}
use haentgl.Server.Environment.{Environment}
use haentgl.Extern.Flags.{
  client_deprecate_eof, server_more_results_exists, server_status_cursor_exists,
}
use haentgl.Protocol.Packet.{
  Packet, is_ok_packet, is_err_packet, is_eof_packet, is_result_set_eof_packet,
  is_local_in_file_packet,
}
use haentgl.Protocol.Basic.{OkPacket, ok_packet, eof_server_status}
use haentgl.Protocol.Link.{Source, Sink}
use haentgl.Server.Outcome.{
  Outcome, done, stopped, panic, out_of_fuel, ◌>>=◌, written, unwrap, received,
}

module _ (K : Sink) where
  open K use {Writer, set_seq, write, end_packet, flush_all}

  -- `set_seq`, `write_all`, `end_packet`.
  abbrev pub put_packet : ℕ → Packet → Writer → Outcome Writer
  put_packet seq p dest = written (end_packet (write p (set_seq seq dest)))

  abbrev pub flush_if : Bool → Writer → Outcome Writer
  flush_if true dest = written (flush_all dest)
  flush_if false dest = done dest

module _ (K : Sink) (S : Source) where
  open K use {Writer}
  open S use {Reader, next}

  -- The packet that was forwarded, with the two ends after it.
  pub forward_one_packet : Bool → Writer → Reader → Outcome (Packet × Writer × Reader)
  forward_one_packet is_flush dest src = do
    ((seq, p), src) ← received (next src)
    dest ← put_packet K seq p dest
    dest ← flush_if K is_flush dest
    done (p, dest, src)

-- The result of a parser that is unwrapped: the value without the input that is left.
abbrev pub parsed {ℓ} : {A : Type ℓ} → IResult A → Outcome A
parsed (ok i a) = done a
parsed (err e) = panic

-- `LittleEndian::read_u16(&p[n..])`, which panics on a slice that is too short.
abbrev pub read_u16 : List ℕ → Option ℕ
read_u16 [] = none
read_u16 (a ∷ []) = none
read_u16 (a ∷ b ∷ rest) = some (a + 256 * b)

-- `&p[n..]`.
abbrev pub slice_from : ℕ → List ℕ → Option (List ℕ)
slice_from zero p = some p
slice_from (suc n) [] = none
slice_from (suc n) (b ∷ p) = slice_from n p

-- What a packet of the rows means to the loop.
pub data Mark : Type 0 where
  err_mark eof_mark ok_mark row_mark : Mark

abbrev pub mark : Bool → Packet → Mark
mark deprecate_eof p =
    if is_err_packet p
    then err_mark
    else if deprecate_eof
    then (if is_result_set_eof_packet p then ok_mark else row_mark)
    else if is_eof_packet p
    then eof_mark
    else row_mark

-- What the first packet of an answer means to `forward_query`.
pub data Head : Type 0 where
  ok_head err_head local_in_file_head result_head : Head

abbrev pub head_of : Packet → Head
head_of p =
    if is_ok_packet p
    then ok_head
    else if is_err_packet p
    then err_head
    else if is_local_in_file_packet p
    then local_in_file_head
    else result_head

module _ (env : Environment) where
  open env use {winnow, flags, from_utf8}

  abbrev pub status_of_ok : ℕ → Packet → Outcome ℕ
  status_of_ok capabilities p =
      parsed (ok_packet winnow flags from_utf8 p capabilities) >>= λ (ok_pkt : OkPacket).
      done ok_pkt.status_flags

  abbrev pub status_of_eof : Packet → Outcome ℕ
  status_of_eof p = unwrap (eof_server_status winnow flags from_utf8 p) >>= λ r. parsed r

  -- The status behind the column definitions, where it says that the rows stay in a cursor.
  abbrev pub cursor_status : Packet → Outcome (Option ℕ)
  cursor_status p = do
    rest ← unwrap (slice_from 3 p)
    status_code ← unwrap (read_u16 rest)
    elim (flags.status_from_bits status_code) [
      | none ↦ done none
      | some status_flags ↦ done (
          if flags.has_status status_flags server_status_cursor_exists
          then some status_flags
          else none)
    ]

  -- Whether another result follows.
  abbrev pub more_results : Option ℕ → Bool
  more_results none = false
  more_results (some status) = flags.has_status status server_more_results_exists

module _ (env : Environment) (K : Sink) (S : Source) where
  open env use {flags}
  open env.packets use {parse_err}
  open K use {Writer, flush_all}
  open S use {Reader}

  -- The fuel is spent on packets.
  pub forward_until_result_end : ℕ → ℕ → Writer → Reader → Outcome (ℕ × Writer × Reader)
  forward_until_result_end zero capabilities dest src = out_of_fuel
  forward_until_result_end (suc fuel) capabilities dest src = do
    (p, dest, src) ← forward_one_packet K S false dest src
    elim (mark (flags.has_capability capabilities client_deprecate_eof) p) [
      | err_mark ↦ do
        _ ← unwrap (parse_err capabilities p)
        dest ← written (flush_all dest)
        done (0, dest, src)
      | eof_mark ↦ do
        dest ← written (flush_all dest)
        status ← status_of_eof env p
        done (status, dest, src)
      | ok_mark ↦ do
        status ← status_of_ok env capabilities p
        dest ← written (flush_all dest)
        done (status, dest, src)
      | row_mark ↦ forward_until_result_end fuel capabilities dest src
    ]

  -- The loop over the column definitions, up to their EOF packet.
  pub forward_columns : ℕ → Writer → Reader → Outcome (Packet × Writer × Reader)
  forward_columns zero dest src = out_of_fuel
  forward_columns (suc fuel) dest src = do
    (p, dest, src) ← forward_one_packet K S false dest src
    elim (is_eof_packet p) [ true ↦ done (p, dest, src) | false ↦ forward_columns fuel dest src ]

  pub forward_result : ℕ → ℕ → Writer → Reader → Outcome (ℕ × Writer × Reader)
  forward_result fuel capabilities dest src =
      elim (flags.has_capability capabilities client_deprecate_eof) [
        | true ↦ forward_until_result_end fuel capabilities dest src
        | false ↦ do
          (resp_packet, dest, src) ← forward_columns fuel dest src
          cursor ← cursor_status env resp_packet
          elim cursor [
            | some status_flags ↦ do dest ← written (flush_all dest); done (status_flags, dest, src)
            | none ↦ forward_until_result_end fuel capabilities dest src
          ]
      ]

  -- One round of `forward_query`: the status, or `none` after an error packet.
  pub forward_answer : ℕ → ℕ → Writer → Reader → Outcome (Option ℕ × Writer × Reader)
  forward_answer fuel capabilities dest src = do
    (p, dest, src) ← forward_one_packet K S false dest src
    elim (head_of p) [
      | ok_head ↦ do
        dest ← written (flush_all dest)
        status ← status_of_ok env capabilities p
        done (some status, dest, src)
      | err_head ↦ do
        _ ← unwrap (parse_err capabilities p)
        dest ← written (flush_all dest)
        done (none, dest, src)
      | local_in_file_head ↦ panic
      | result_head ↦ do
        (status, dest, src) ← forward_result fuel capabilities dest src
        done (some status, dest, src)
    ]

  pub forward_query : ℕ → ℕ → Writer → Reader → Outcome (Unit {0} × Writer × Reader)
  unfolding forward_answer
  forward_query zero capabilities dest src = out_of_fuel
  forward_query (suc fuel) capabilities dest src = do
    (status, dest, src) ← forward_answer fuel capabilities dest src
    elim (more_results env status) [
      | true ↦ forward_query fuel capabilities dest src
      | false ↦ done (tt, dest, src)
    ]
