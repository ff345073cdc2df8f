-- ===== src/Server/Tests/Plain.antt =====
-- Connections that hold lists of packets, and the other parameters of the server, for runs.
use haentgl.Prelude.{
  arith, ℕ, suc, ◌<◌, ◌≡◌, refl, ap, sym, Option, none, some, List, [], ◌∷◌, ◌++◌, length,
}
use mathlib.Core.Option.{some-injective}
use haentgl.Extern.Winnow.Slices.{slices}
use haentgl.Extern.ByteOrder.{little_endian}
use haentgl.Extern.Flags.Bits.{flag_bits}
use haentgl.Extern.MysqlPackets.{MysqlPackets, ComChangeUserMoreData}
use haentgl.Protocol.Basic.{HandshakeResponse}
use haentgl.Protocol.Link.{Numbered, Source, Sink, wire}
use haentgl.Protocol.Reader.{Next, got, closed}
use haentgl.Server.Environment.{Environment}
use haentgl.Server.Forwarder.Relay.Steps.{Steady}

abbrev take_one : List Numbered → Next × List Numbered
take_one [] = (closed, [])
take_one ((seq, p) ∷ ps) = (got seq p, ps)

abbrev pub queue : Source
queue = record {
  Reader = List Numbered;
  next = take_one;
  Ahead = λ r ps. r ≡ ps;
  next-Ahead = λ r seq p ps h. (ps, ap take_one h, refl);
}

pub record Plain : Type 0 where
  pub seq : ℕ
  pub buf : List ℕ
  pub sent : List ℕ

abbrev end_plain : Plain → Option Plain
end_plain d = some (record { seq = suc d.seq; buf = []; sent = d.sent ++ wire (d.seq, d.buf) })

pub end_plain_view :
    (d d' : Plain)
    → 0 < length d.buf
    → end_plain d ≡ some d'
    → (d'.sent ≡ d.sent ++ wire (d.seq, d.buf)) × (d'.buf ≡ [])
end_plain_view d d' pos e =
    let h = some-injective _ _ e in (ap (λ w. w.sent) (sym h), ap (λ w. w.buf) (sym h))

abbrev pub plain : Sink
plain = record {
  Writer = Plain;
  seq = λ d. d.seq;
  buf = λ d. d.buf;
  sent = λ d. d.sent;
  set_seq = λ n d. record d { seq = n };
  write = λ bs d. record d { buf = d.buf ++ bs };
  end_packet = end_plain;
  flush_all = λ d. some d;
  set_seq_view = λ n d. (refl, refl, refl);
  write_view = λ bs d. (refl, refl, refl);
  end_packet_view = end_plain_view;
  flush_all_view = λ d d' e. (
    ap (λ w. w.sent) (sym (some-injective d d' e)),
    ap (λ w. w.buf) (sym (some-injective d d' e)),
  );
}

pub plain-steady : Steady plain
plain-steady = record { ends = λ d. (_, refl); flushes = λ d. (d, refl) }

abbrev pub idle_plain : Plain
idle_plain = record { seq = 0; buf = []; sent = [] }

-- Requests that are told apart by their users and plugins.
abbrev pub bytes_of : Option (List ℕ) → List ℕ
bytes_of none = []
bytes_of (some s) = s

abbrev pub plugin_of : Option ComChangeUserMoreData → List ℕ
plugin_of none = []
plugin_of (some more) = bytes_of more.auth_plugin

abbrev pub plain_packets : MysqlPackets
plain_packets = record {
  parse_err = λ capabilities p. some tt;
  refusal = λ p. some p;
  parse_change_user = λ capabilities p.
      some (record { user = some p; auth_plugin_data = none; database = none; more_data = none });
  serialize_change_user = λ c. 0x11 ∷ (bytes_of c.user ++ plugin_of c.more_data);
  length-serialize_change_user = λ c. omega arith;
  parse_response = λ p.
      some
        (record { scramble_buf = p; db_name = none; capabilities = 0; connect_attributes = none });
  serialize_response = λ a. 5 ∷ (bytes_of a.scramble_buf ++ bytes_of a.auth_plugin);
  length-serialize_response = λ a. omega arith;
}

abbrev pub tools : Environment
tools = record {
  winnow = slices;
  flags = flag_bits;
  order = little_endian;
  from_utf8 = λ s. some s;
  packets = plain_packets;
  utf8_lossy = λ s. s;
}

-- `CLIENT_DEPRECATE_EOF`.
abbrev pub caps : ℕ
caps = 16777216

abbrev pub hand : HandshakeResponse
hand = record {
  client_flag = caps;
  max_packet_len = 0;
  collation = 0;
  tenant_key = none;
  username = none;
  auth_response = [];
  auth_plugin = [];
  database = none;
  connect_attributes = none;
}
