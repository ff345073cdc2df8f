-- ===== src/Server/Commands/Prepare.antt =====
-- The answer to a prepared statement.
use haentgl.Prelude.{
  ℕ, ◌+◌, ◌<◌, ◌≡◌, refl, Bool, true, false, List, [], ◌∷◌, ◌++◌, length, arith, ltb, if◌then◌else◌,
  All,
}
use haentgl.Extern.Flags.{client_deprecate_eof}
use haentgl.Protocol.Packet.{Packet, is_ok_packet, is_err_packet}
use haentgl.Protocol.Link.{Numbered, Source, Sink}
use haentgl.Server.Environment.{Environment}
use haentgl.Server.Outcome.{done}
use haentgl.Server.Forwarder.{forward_one_packet}
use haentgl.Server.Forwarder.Relay.Steps.{
  Steady, Relays, Relays-one, Relays-then, Relays-then_flush, Relays-done,
}
use haentgl.Server.Commands.{forward_packets, forward_prepare_stmt, expected_packets, u16_at}

abbrev pub NonEmpty : Numbered → Type 0
NonEmpty (seq, p) = 0 < length p

-- The definitions of columns or of parameters, with the EOF packet that closes them if there are any.
abbrev pub block : Bool → ℕ → ℕ
block deprecate_eof n = if deprecate_eof then n else if ltb 0 n then n + 1 else 0

-- An OK packet with the two counts, and the definitions that they announce.
pub record PrepareAnswer (deprecate_eof : Bool) (p : Packet) (ps : List Numbered) : Type 0 where
  pub columns : ℕ
  pub params : ℕ
  pub columns_read : u16_at 5 p ≡ done columns
  pub params_read : u16_at 7 p ≡ done params
  pub is_ok : is_ok_packet p ≡ true
  pub count : length ps ≡ block deprecate_eof columns + block deprecate_eof params
  pub fits : length ps < 65536
  pub whole : All NonEmpty ps

pub ok-not_err : (p : Packet) → is_ok_packet p ≡ true → is_err_packet p ≡ false
unfolding is_ok_packet is_err_packet
ok-not_err [] h = refl
ok-not_err (b ∷ bs) h = ground arith

pub ok-nonempty : (p : Packet) → is_ok_packet p ≡ true → 0 < length p
unfolding is_ok_packet
ok-nonempty [] h = ground arith
ok-nonempty (b ∷ bs) h = omega arith

expected_packets_lem :
    (dep : Bool) (n c m : ℕ)
    → n ≡ block dep c + block dep m
    → n < 65536
    → expected_packets dep c m ≡ n
expected_packets_lem dep n c m e h = ground arith

module _ (env : Environment) (K : Sink) (S : Source) (steady : Steady K) where
  forward_packets-Relays :
      (ps rest : List Numbered) (d : K.Writer) (s : S.Reader)
      → All NonEmpty ps
      → K.buf d ≡ []
      → S.Ahead s (ps ++ rest)
      → Relays K S (forward_packets env K S (length ps) d s) tt d ps rest
  unfolding forward_packets
  forward_packets-Relays [] rest d s whole empty ahead =
      Relays-done K S _ tt d s rest refl empty ahead
  forward_packets-Relays ((seq, p) ∷ ps) rest d s whole empty ahead =
      Relays-then K S (forward_one_packet K S false d s) _ p tt d ((seq, p) ∷ []) ps rest
        (Relays-one K S steady false d s seq p (ps ++ rest) whole.0 empty ahead)
        (λ d1 s1 empty1 ahead1. forward_packets-Relays ps rest d1 s1 whole.1 empty1 ahead1)

  -- If the backend answers a prepare with an OK packet and as many definitions as its counts announce,
  -- fewer than 65536 packets with their EOF packets, and no write fails, then the client is sent
  -- exactly these packets, and the reader stands at what the backend sends next.
  pub forward_prepare_stmt-Relays :
      (capabilities : ℕ) (d : K.Writer) (s : S.Reader) (seq : ℕ) (p : Packet)
      (ps rest : List Numbered)
      → PrepareAnswer (env.flags.has_capability capabilities client_deprecate_eof) p ps
      → K.buf d ≡ []
      → S.Ahead s ((seq, p) ∷ (ps ++ rest))
      → Relays K S (forward_prepare_stmt env K S capabilities d s) tt d ((seq, p) ∷ ps) rest
  unfolding forward_prepare_stmt
  forward_prepare_stmt-Relays capabilities d s seq p ps rest a empty ahead =
      let dep = env.flags.has_capability capabilities client_deprecate_eof in
      let n : expected_packets dep a.columns a.params ≡ length ps =
        expected_packets_lem dep (length ps) a.columns a.params a.count a.fits in
      Relays-then K S (forward_one_packet K S false d s) _ p tt d ((seq, p) ∷ []) ps rest
        (Relays-one K S steady false d s seq p (ps ++ rest) (ok-nonempty p a.is_ok) empty ahead)
        (λ d1 s1 empty1 ahead1.
          rw (ok-not_err p a.is_ok, a.is_ok, a.columns_read, a.params_read, n)
            (Relays-then_flush K S steady (forward_packets env K S (length ps) d1 s1) _ tt tt d1 ps
              rest (forward_packets-Relays ps rest d1 s1 a.whole empty1 ahead1)
              (λ d2 d3 s2 f. rw f)))
