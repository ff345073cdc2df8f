-- ===== src/Server/Commands/Session/Forwarded.antt =====
-- The forwarder of a command relays the answer: src/proxy/src/server/forwarder.
use haentgl.Prelude.{ℕ, ◌≤◌, ◌≡◌, refl, true, List, [], ◌∷◌, ◌++◌, length, arith, append-nil}
use haentgl.Protocol.Packet.{Packet}
use haentgl.Protocol.Constants.{CommandCode}
use haentgl.Protocol.Link.{Numbered, Source, Sink, wires}
use haentgl.Server.Environment.{Environment}
use haentgl.Server.Outcome.{Outcome, done, ◌>>=◌}
use haentgl.Server.Forwarder.{forward_query, forward_until_result_end, forward_one_packet}
use haentgl.Server.Forwarder.Relay.Spoken.{forward_query-Relays, Rows-Relays}
use haentgl.Server.Forwarder.Relay.Steps.{Steady, Relays, Relays-one}
use haentgl.Server.Commands.{Ends, forward, com_forwarder, forward_prepare_stmt, forward_query_com}
use haentgl.Server.Commands.Prepare.{forward_prepare_stmt-Relays}
use haentgl.Server.Commands.Session.Routes.{
  Routed, routed_results, routed_rows, routed_prepare, routed_close, routed_one,
}

module _ (env : Environment) (CK BK : Sink) (CS BS : Source) (ck : Steady CK) (bk : Steady BK) where
  -- One forwarder has run: the client was sent these packets, and the other ends are untouched.
  pub record Served (o : Outcome (Ends CK BK CS BS)) (e : Ends CK BK CS BS)
      (ps rest : List Numbered) : Type 0 where
    pub after : Ends CK BK CS BS
    pub result : o ≡ done after
    pub sent_all : CK.sent after.client_writer ≡ CK.sent e.client_writer ++ wires ps
    pub idle : CK.buf after.client_writer ≡ []
    pub ahead : BS.Ahead after.backend_reader rest
    pub same_writer : after.backend_writer ≡ e.backend_writer
    pub same_reader : after.client_reader ≡ e.client_reader

  served :
      {A : Type 0} (o : Outcome (A × CK.Writer × BS.Reader)) (a : A)
      (f : A × CK.Writer × BS.Reader → Outcome (Ends CK BK CS BS)) (e : Ends CK BK CS BS)
      (ps rest : List Numbered)
      → Relays CK BS o a e.client_writer ps rest
      → ((d : CK.Writer) (s : BS.Reader)
          → f (a, d, s) ≡ done (record e { client_writer = d; backend_reader = s }))
      → Served (o >>= f) e ps rest
  served o a f e ps rest r h = record {
    after = record e { client_writer = r.dest; backend_reader = r.src };
    result = rw r.result (h r.dest r.src);
    sent_all = r.sent_all;
    idle = r.idle;
    ahead = r.ahead;
    same_writer = refl;
    same_reader = refl;
  }

  pub forward-serves :
      (fuel capabilities : ℕ) (c : CommandCode) (p : Packet) (e : Ends CK BK CS BS)
      {ps : List Numbered} (rest : List Numbered)
      → Routed env capabilities c p ps
      → length ps ≤ fuel
      → CK.buf e.client_writer ≡ []
      → BS.Ahead e.backend_reader (ps ++ rest)
      → Served (forward env CK BK CS BS (com_forwarder c) fuel c capabilities p e) e ps rest
  unfolding forward
  forward-serves fuel capabilities c p e rest (routed_results {ps} is_query kind a) le empty ahead =
      rw (is_query, forward, forward_query_com, kind)
        (served (forward_query env CK BS fuel capabilities e.client_writer e.backend_reader) tt _ e
          ps rest
          (forward_query-Relays env CK BS ck capabilities fuel e.client_writer e.backend_reader rest
            a le empty ahead)
          (λ d s. refl))
  forward-serves fuel capabilities c p e rest (routed_rows {ps} {status} is_query kind a) le empty
        ahead =
      rw (is_query, forward, forward_query_com, kind)
        (served
          (forward_until_result_end env CK BS fuel capabilities e.client_writer e.backend_reader)
          status _ e ps rest
          (Rows-Relays env CK BS ck capabilities fuel e.client_writer e.backend_reader rest a le
            empty ahead)
          (λ d s. refl))
  forward-serves fuel capabilities c p e rest (routed_prepare {seq} {q} {ps} a) le empty ahead =
      served (forward_prepare_stmt env CK BS capabilities e.client_writer e.backend_reader) tt _ e
        ((seq, q) ∷ ps) rest
        (forward_prepare_stmt-Relays env CK BS ck capabilities e.client_writer e.backend_reader seq
          q ps rest a empty ahead)
        (λ d s. refl)
  forward-serves fuel capabilities c p e rest (routed_close long) le empty ahead = record {
    after = e;
    result = ground arith;
    sent_all = rw (append-nil (CK.sent e.client_writer));
    idle = empty;
    ahead = ahead;
    same_writer = refl;
    same_reader = refl;
  }
  forward-serves fuel capabilities c p e rest (routed_one {seq} {q} generic pos) le empty ahead =
      rw (generic, forward)
        (served (forward_one_packet CK BS true e.client_writer e.backend_reader) q _ e
          ((seq, q) ∷ []) rest
          (Relays-one CK BS ck true e.client_writer e.backend_reader seq q rest pos empty ahead)
          (λ d s. refl))
