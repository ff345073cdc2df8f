-- ===== src/Server/Forwarder/Relay.antt =====
-- The forwarders pass on every packet of an answer, in order and unchanged, and no other.
pub mod Steps
pub mod Seen
pub mod Spoken
use haentgl.Prelude.{
  ℕ, zero, suc, ◌+◌, ◌≤◌, ◌<◌, ◌≡◌, refl, Bool, true, false, Bool-cases, none, some, List, [], ◌∷◌,
  ◌++◌, length, inl, inr, arith, append_assoc, append-nil, length-append,
}
use haentgl.Extern.Winnow.{ok}
use haentgl.Extern.Flags.{client_deprecate_eof}
use haentgl.Protocol.Packet.{
  Packet, is_ok_packet, is_err_packet, is_eof_packet, is_result_set_eof_packet,
  is_local_in_file_packet,
}
use haentgl.Protocol.Basic.{OkPacket, ok_packet}
use haentgl.Protocol.Link.{Numbered, Source, Sink, wires}
use haentgl.Server.Environment.{Environment}
use haentgl.Server.Outcome.{Outcome, done, ◌>>=◌, written, unwrap}
use haentgl.Server.Forwarder.{
  forward_one_packet, forward_until_result_end, forward_columns, forward_result, forward_query,
  mark, err_mark, eof_mark, ok_mark, row_mark, status_of_eof, status_of_ok, forward_answer, head_of,
  err_head,
}
use Steps.{
  Steady, Relays, Relays-one, Relays-then, Relays-flush, Relays-done, Relays-map, Relays-then_flush,
}
use Seen.{
  SeenRows, seen_err_end, seen_eof_end, seen_ok_end, seen_row, SeenColumns, seen_columns_end,
  seen_column, SeenResultSet, seen_short_result, seen_cursor_result, seen_full_result, SeenAnswer,
  seen_err_answer, seen_ok_answer, seen_ok_then, seen_result_answer, seen_result_then, closes,
  IsHead,
}

module _ (env : Environment) (capabilities : ℕ) where
  SeenRows-length :
      {ps : List Numbered} {status : ℕ} → SeenRows env capabilities ps status → 0 < length ps
  SeenRows-length (seen_err_end h e) = omega arith
  SeenRows-length (seen_eof_end h i j e) = omega arith
  SeenRows-length (seen_ok_end h i j e) = omega arith
  SeenRows-length (seen_row h i j r) = omega arith

  SeenColumns-length :
      {ps : List Numbered} {last : Packet} → SeenColumns env capabilities ps last → 0 < length ps
  SeenColumns-length (seen_columns_end h) = omega arith
  SeenColumns-length (seen_column h i c) = omega arith

-- A byte at the front that the predicate asks for.
err-nonempty : (p : Packet) → is_err_packet p ≡ true → 0 < length p
unfolding is_err_packet
err-nonempty [] h = ground arith
err-nonempty (b ∷ bs) h = omega arith

eof-nonempty : (p : Packet) → is_eof_packet p ≡ true → 0 < length p
unfolding is_eof_packet
eof-nonempty [] h = ground arith
eof-nonempty (b ∷ bs) h = omega arith

result_set_eof-nonempty : (p : Packet) → is_result_set_eof_packet p ≡ true → 0 < length p
unfolding is_result_set_eof_packet
result_set_eof-nonempty [] h = ground arith
result_set_eof-nonempty (b ∷ bs) h = omega arith

module _ (env : Environment) (K : Sink) (S : Source) (steady : Steady K) (capabilities : ℕ) where
  open env use {flags}
  open K use {Writer, buf}
  open S use {Reader, Ahead}

  mark-row :
      (p : Packet) (dep : Bool)
      → is_err_packet p ≡ false
      → closes dep p ≡ false
      → mark dep p ≡ row_mark
  mark-row p true h i = rw (h, i)
  mark-row p false h i = rw (h, i)

  pub SeenRows-Relays :
      (fuel : ℕ) (d : Writer) (s : Reader) {ps : List Numbered} {status : ℕ} (rest : List Numbered)
      → SeenRows env capabilities ps status
      → length ps ≤ fuel
      → buf d ≡ []
      → Ahead s (ps ++ rest)
      → Relays K S (forward_until_result_end env K S fuel capabilities d s) status d ps rest
  unfolding forward_until_result_end
  SeenRows-Relays zero d s rest r le empty ahead =
      absurd (omega (arith, SeenRows-length env capabilities r))
  SeenRows-Relays (suc fuel) d s rest (seen_err_end {seq} {p} h e) le empty ahead =
      Relays-then K S (forward_one_packet K S false d s) _ p 0 d ((seq, p) ∷ []) [] rest
        (Relays-one K S steady false d s seq p rest (err-nonempty p h) empty ahead)
        (λ d1 s1 empty1 ahead1.
          let (d2, f) = steady.flushes d1 in
          Relays-flush K S steady _ 0 d1 d2 s1 rest f (rw (h, e, f)) empty1 ahead1)
  SeenRows-Relays (suc fuel) d s rest (seen_eof_end {seq} {status} {p} dep h i e) le empty ahead =
      Relays-then K S (forward_one_packet K S false d s) _ p status d ((seq, p) ∷ []) [] rest
        (Relays-one K S steady false d s seq p rest (eof-nonempty p i) empty ahead)
        (λ d1 s1 empty1 ahead1.
          let (d2, f) = steady.flushes d1 in
          Relays-flush K S steady _ status d1 d2 s1 rest f (rw (dep, h, i, f, e)) empty1 ahead1)
  SeenRows-Relays (suc fuel) d s rest (seen_ok_end {seq} {p} {ok_pkt} dep h i e) le empty ahead =
      Relays-then K S (forward_one_packet K S false d s) _ p ok_pkt.status_flags d ((seq, p) ∷ [])
        [] rest
        (Relays-one K S steady false d s seq p rest (result_set_eof-nonempty p i) empty ahead)
        (λ d1 s1 empty1 ahead1.
          let (d2, f) = steady.flushes d1 in
          Relays-flush K S steady _ ok_pkt.status_flags d1 d2 s1 rest f (rw (dep, h, i, e, f))
            empty1 ahead1)
  SeenRows-Relays (suc fuel) d s rest (seen_row {seq} {status} {p} {ps} pos h i r) le empty ahead =
      Relays-then K S (forward_one_packet K S false d s) _ p status d ((seq, p) ∷ []) ps rest
        (Relays-one K S steady false d s seq p (ps ++ rest) pos empty ahead)
        (λ d1 s1 empty1 ahead1.
          rw (mark-row p (flags.has_capability capabilities client_deprecate_eof) h i)
            (SeenRows-Relays fuel d1 s1 rest r (omega arith) empty1 ahead1))

  SeenColumns-Relays :
      (fuel : ℕ) (d : Writer) (s : Reader) {cs : List Numbered} {last : Packet}
      (rest : List Numbered)
      → SeenColumns env capabilities cs last
      → length cs ≤ fuel
      → buf d ≡ []
      → Ahead s (cs ++ rest)
      → Relays K S (forward_columns env K S fuel d s) last d cs rest
  unfolding forward_columns
  SeenColumns-Relays zero d s rest c le empty ahead =
      absurd (omega (arith, SeenColumns-length env capabilities c))
  SeenColumns-Relays (suc fuel) d s rest (seen_columns_end {seq} {p} h) le empty ahead =
      Relays-then K S (forward_one_packet K S false d s) _ p p d ((seq, p) ∷ []) [] rest
        (Relays-one K S steady false d s seq p rest (eof-nonempty p h) empty ahead)
        (λ d1 s1 empty1 ahead1. Relays-done K S _ p d1 s1 rest (rw h) empty1 ahead1)
  SeenColumns-Relays (suc fuel) d s rest (seen_column {seq} {p} {last} {ps} pos h c) le empty
        ahead =
      Relays-then K S (forward_one_packet K S false d s) _ p last d ((seq, p) ∷ []) ps rest
        (Relays-one K S steady false d s seq p (ps ++ rest) pos empty ahead)
        (λ d1 s1 empty1 ahead1.
          rw h (SeenColumns-Relays fuel d1 s1 rest c (omega arith) empty1 ahead1))

  SeenResultSet-Relays :
      (fuel : ℕ) (d : Writer) (s : Reader) {ps : List Numbered} {status : ℕ} (rest : List Numbered)
      → SeenResultSet env capabilities ps status
      → length ps ≤ fuel
      → buf d ≡ []
      → Ahead s (ps ++ rest)
      → Relays K S (forward_result env K S fuel capabilities d s) status d ps rest
  unfolding forward_result
  SeenResultSet-Relays fuel d s rest (seen_short_result dep r) le empty ahead =
      rw (dep, forward_result) (SeenRows-Relays fuel d s rest r le empty ahead)
  SeenResultSet-Relays fuel d s rest (seen_cursor_result {ps} {last} {status} dep c e) le empty
        ahead =
      rw (dep, forward_result)
        (Relays-then_flush K S steady (forward_columns env K S fuel d s) _ last status d ps rest
          (SeenColumns-Relays fuel d s rest c le empty ahead) (λ d1 d2 s1 f. rw (e, f)))
  SeenResultSet-Relays fuel d s rest (seen_full_result {cs} {ps} {last} {status} dep c e r) le empty
        ahead =
      rw (dep, forward_result)
        (Relays-then K S (forward_columns env K S fuel d s) _ last status d cs ps rest
          (SeenColumns-Relays fuel d s (ps ++ rest) c (omega (arith, length-append cs ps)) empty
            (rw (append_assoc cs ps rest) at ahead))
          (λ d1 s1 empty1 ahead1.
            rw e (
              SeenRows-Relays fuel d1 s1 rest r (omega (arith, length-append cs ps)) empty1
                ahead1)))

  ok-nonempty : (p : Packet) → is_ok_packet p ≡ true → 0 < length p
  unfolding is_ok_packet
  ok-nonempty [] h = ground arith
  ok-nonempty (b ∷ bs) h = omega arith

  err-head : (p : Packet) → is_err_packet p ≡ true → head_of p ≡ err_head
  unfolding is_err_packet is_ok_packet
  err-head [] h = ground arith
  err-head (b ∷ bs) h = ground arith

  -- One result of an answer, with the status that says whether another follows.
  answer_err :
      (fuel : ℕ) (d : Writer) (s : Reader) (seq : ℕ) (p : Packet) (rest : List Numbered)
      → is_err_packet p ≡ true
      → env.packets.parse_err capabilities p ≡ some tt
      → buf d ≡ []
      → Ahead s ((seq, p) ∷ rest)
      → Relays K S (forward_answer env K S fuel capabilities d s) none d ((seq, p) ∷ []) rest
  unfolding forward_answer
  answer_err fuel d s seq p rest h e empty ahead =
      Relays-then K S (forward_one_packet K S false d s) _ p none d ((seq, p) ∷ []) [] rest
        (Relays-one K S steady false d s seq p rest (err-nonempty p h) empty ahead)
        (λ d1 s1 empty1 ahead1.
          let (d2, f) = steady.flushes d1 in
          Relays-flush K S steady _ none d1 d2 s1 rest f (rw (err-head p h, e, f)) empty1 ahead1)

  answer_ok :
      (fuel : ℕ) (d : Writer) (s : Reader) (seq : ℕ) (p : Packet) (left : List ℕ)
      (ok_pkt : OkPacket) (rest : List Numbered)
      → is_ok_packet p ≡ true
      → ok_packet env.winnow env.flags env.from_utf8 p capabilities ≡ ok left ok_pkt
      → buf d ≡ []
      → Ahead s ((seq, p) ∷ rest)
      → Relays K S
          (forward_answer env K S fuel capabilities d s)
          (some ok_pkt.status_flags)
          d
          ((seq, p) ∷ [])
          rest
  unfolding forward_answer
  answer_ok fuel d s seq p left ok_pkt rest h e empty ahead =
      Relays-then K S (forward_one_packet K S false d s) _ p (some ok_pkt.status_flags) d
        ((seq, p) ∷ []) [] rest
        (Relays-one K S steady false d s seq p rest (ok-nonempty p h) empty ahead)
        (λ d1 s1 empty1 ahead1.
          let (d2, f) = steady.flushes d1 in
          Relays-flush K S steady _ (some ok_pkt.status_flags) d1 d2 s1 rest f (rw (h, f, e)) empty1
            ahead1)

  answer_result :
      (fuel : ℕ) (d : Writer) (s : Reader) (seq status : ℕ) (p : Packet) (ps rest : List Numbered)
      → 0 < length p
      → IsHead p
      → SeenResultSet env capabilities ps status
      → length ps ≤ fuel
      → buf d ≡ []
      → Ahead s ((seq, p) ∷ (ps ++ rest))
      → Relays K S
          (forward_answer env K S fuel capabilities d s)
          (some status)
          d
          ((seq, p) ∷ ps)
          rest
  unfolding forward_answer
  answer_result fuel d s seq status p ps rest pos (n1, n2, n3) r le empty ahead =
      Relays-then K S (forward_one_packet K S false d s) _ p (some status) d ((seq, p) ∷ []) ps rest
        (Relays-one K S steady false d s seq p (ps ++ rest) pos empty ahead)
        (λ d1 s1 empty1 ahead1.
          rw (n1, n2, n3)
            (Relays-map K S (forward_result env K S fuel capabilities d1 s1) _ status (some status)
              d1 ps rest (SeenResultSet-Relays fuel d1 s1 rest r le empty1 ahead1) (λ d2 s2. refl)))

  SeenAnswer-length : {ps : List Numbered} → SeenAnswer env capabilities ps → 0 < length ps
  SeenAnswer-length (seen_err_answer h e) = omega arith
  SeenAnswer-length (seen_ok_answer h e m) = omega arith
  SeenAnswer-length (seen_ok_then h e m a) = omega arith
  SeenAnswer-length (seen_result_answer pos h r m) = omega arith
  SeenAnswer-length (seen_result_then pos h r m a) = omega arith

  pub SeenAnswer-Relays :
      (fuel : ℕ) (d : Writer) (s : Reader) {ps : List Numbered} (rest : List Numbered)
      → SeenAnswer env capabilities ps
      → length ps ≤ fuel
      → buf d ≡ []
      → Ahead s (ps ++ rest)
      → Relays K S (forward_query env K S fuel capabilities d s) tt d ps rest
  unfolding forward_query
  SeenAnswer-Relays zero d s rest a le empty ahead = absurd (omega (arith, SeenAnswer-length a))
  SeenAnswer-Relays (suc fuel) d s rest (seen_err_answer {seq} {p} h e) le empty ahead =
      Relays-then K S (forward_answer env K S fuel capabilities d s) _ none tt d ((seq, p) ∷ []) []
        rest (answer_err fuel d s seq p rest h e empty ahead)
        (λ d1 s1 empty1 ahead1. Relays-done K S _ tt d1 s1 rest refl empty1 ahead1)
  SeenAnswer-Relays (suc fuel) d s rest (seen_ok_answer {seq} {p} {rest = left} {ok_pkt} h e m) le
        empty ahead =
      Relays-then K S (forward_answer env K S fuel capabilities d s) _ (some ok_pkt.status_flags) tt
        d ((seq, p) ∷ []) [] rest (answer_ok fuel d s seq p left ok_pkt rest h e empty ahead)
        (λ d1 s1 empty1 ahead1. Relays-done K S _ tt d1 s1 rest (rw m) empty1 ahead1)
  SeenAnswer-Relays (suc fuel) d s rest (seen_ok_then {seq} {p} {rest = left} {ok_pkt} {ps} h e m a)
        le empty ahead =
      Relays-then K S (forward_answer env K S fuel capabilities d s) _ (some ok_pkt.status_flags) tt
        d ((seq, p) ∷ []) ps rest
        (answer_ok fuel d s seq p left ok_pkt (ps ++ rest) h e empty ahead)
        (λ d1 s1 empty1 ahead1.
          rw m (SeenAnswer-Relays fuel d1 s1 rest a (omega arith) empty1 ahead1))
  SeenAnswer-Relays (suc fuel) d s rest (seen_result_answer {seq} {status} {p} {ps} pos h r m) le
        empty ahead =
      Relays-map K S (forward_answer env K S fuel capabilities d s) _ (some status) tt d
        ((seq, p) ∷ ps) rest
        (answer_result fuel d s seq status p ps rest pos h r (omega arith) empty ahead)
        (λ d1 s1. rw m)
  SeenAnswer-Relays (suc fuel) d s rest (seen_result_then {seq} {status} {p} {ps} {qs} pos h r m a)
        le empty ahead =
      Relays-then K S (forward_answer env K S fuel capabilities d s) _ (some status) tt d
        ((seq, p) ∷ ps) qs rest
        (answer_result fuel d s seq status p ps (qs ++ rest) pos h r
          (omega (arith, length-append ps qs)) empty (rw (append_assoc ps qs rest) at ahead))
        (λ d1 s1 empty1 ahead1.
          rw m (
            SeenAnswer-Relays fuel d1 s1 rest a (omega (arith, length-append ps qs)) empty1 ahead1))
