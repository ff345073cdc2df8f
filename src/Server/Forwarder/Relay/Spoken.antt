-- ===== src/Server/Forwarder/Relay/Spoken.antt =====
-- The program's tests and readers see in an answer what the MySQL protocol says, so that every answer
-- of the protocol is relayed: src/proxy/src/server/forwarder/query_forward.rs.
use haentgl.Prelude.{
  ℕ, ◌+◌, ◌*◌, ◌≤◌, ◌<◌, ◌≡◌, ◌≢◌, refl, subst, Bool, true, false, none, some, List, [], ◌∷◌, ◌++◌,
  length, arith, inl, inr, length-append,
}
use haentgl.Extern.Winnow.{ok}
use haentgl.Extern.Flags.{client_deprecate_eof}
use haentgl.Protocol.Basic.{eof_server_status}
use haentgl.Protocol.Basic.Layout.{OkLayout, ok_layout, OkLayout-read, number}
use haentgl.Protocol.Packet.{
  Packet, is_ok_packet, is_err_packet, is_eof_packet, is_result_set_eof_packet,
  is_local_in_file_packet,
}
use haentgl.Protocol.Link.{Numbered, Source, Sink}
use haentgl.Server.Environment.{Environment}
use haentgl.Server.Outcome.{done}
use haentgl.Server.Forwarder.{cursor_status, forward_query, forward_until_result_end}
use haentgl.Server.Forwarder.Answer.{
  eof_bytes, IsRow, IsColumnCount, Rows, err_end, eof_end, ok_end, row, Columns, columns_end,
  column, HasCursor, NoCursor, ResultSet, short_result, cursor_result, full_result, Answer,
  err_answer, ok_answer, ok_then, result_answer, result_then,
}
use haentgl.Server.Forwarder.Relay.{SeenRows-Relays, SeenAnswer-Relays}
use haentgl.Server.Forwarder.Relay.Steps.{Steady, Relays}
use haentgl.Server.Forwarder.Relay.Seen.{
  SeenRows, seen_err_end, seen_eof_end, seen_ok_end, seen_row, SeenColumns, seen_columns_end,
  seen_column, SeenResultSet, seen_short_result, seen_cursor_result, seen_full_result, SeenAnswer,
  seen_err_answer, seen_ok_answer, seen_ok_then, seen_result_answer, seen_result_then, closes,
  IsHead,
}

row-not_closer :
    (dep : Bool) (b : ℕ) (bs : List ℕ)
    → IsRow b bs
    → (is_err_packet (b ∷ bs) ≡ false) × (closes dep (b ∷ bs) ≡ false)
unfolding is_err_packet is_eof_packet is_result_set_eof_packet
row-not_closer true b bs (ne, inl ne') = (ground arith, ground arith)
row-not_closer true b bs (ne, inr long) = (ground arith, ground arith)
row-not_closer false b bs (ne, inl ne') = (ground arith, ground arith)
row-not_closer false b bs (ne, inr long) = (ground arith, ground arith)

column-not_eof : (b : ℕ) (bs : List ℕ) → b ≢ 0xfe → is_eof_packet (b ∷ bs) ≡ false
unfolding is_eof_packet
column-not_eof b bs ne = ground arith

count-IsHead : (b : ℕ) (bs : List ℕ) → IsColumnCount b → IsHead (b ∷ bs)
unfolding is_err_packet is_ok_packet is_local_in_file_packet
count-IsHead b bs (n1, n2, n3) = (ground arith, ground arith, ground arith)

err-seen : (bs : List ℕ) → is_err_packet (0xff ∷ bs) ≡ true
unfolding is_err_packet
err-seen bs = refl

eof-seen :
    (w1 w2 s1 s2 : ℕ)
    → (is_eof_packet (eof_bytes w1 w2 s1 s2) ≡ true)
      × (is_err_packet (eof_bytes w1 w2 s1 s2) ≡ false)
unfolding is_eof_packet is_err_packet
eof-seen w1 w2 s1 s2 = (refl, refl)

number-long : (n : ℕ) → 1 ≤ length (number n)
number-long n = ground arith

module _ (env : Environment) (capabilities : ℕ) where
  open env use {winnow, flags, from_utf8}

  eof-status :
      (w1 w2 s1 s2 : ℕ)
      → eof_server_status winnow flags from_utf8 (eof_bytes w1 w2 s1 s2)
        ≡ some (ok [] (flags.status_truncate (s1 + 256 * s2)))
  unfolding eof_server_status
  eof-status w1 w2 s1 s2 = rw (winnow.le_u16_ok s1 s2 [])

  ok-seen :
      {status : ℕ} {p : Packet} → OkLayout flags capabilities 0x00 status p → is_ok_packet p ≡ true
  unfolding is_ok_packet
  ok-seen (ok_layout header rows id s1 s2 w1 w2 texts hr hi t) = refl

  closer-seen :
      {status : ℕ} {p : Packet}
      → OkLayout flags capabilities 0xfe status p
      → length p < 16777215
      → (is_err_packet p ≡ false) × (is_result_set_eof_packet p ≡ true)
  unfolding is_err_packet is_result_set_eof_packet
  closer-seen (ok_layout header rows id s1 s2 w1 w2 texts hr hi t) short =
      let tail = s1 ∷ s2 ∷ w1 ∷ w2 ∷ texts in
      let size : 7 ≤ length (254 ∷ (number rows ++ (number id ++ tail))) = omega (
        arith,
        number-long rows,
        number-long id,
        length-append (number rows) (number id ++ tail),
        length-append (number id) tail,
      ) in
      (refl, ground (arith, size))

  Rows-seen :
      {ps : List Numbered} {status : ℕ}
      → Rows env capabilities ps status
      → SeenRows env capabilities ps status
  Rows-seen (err_end {seq} {bs} e) = seen_err_end (err-seen bs) e
  Rows-seen (eof_end seq w1 w2 s1 s2 dep) =
      let (eof, not_err) = eof-seen w1 w2 s1 s2 in
      seen_eof_end dep not_err eof (eof-status w1 w2 s1 s2)
  Rows-seen (ok_end {seq} {status} {p} dep layout short) =
      let (not_err, closer) = closer-seen layout short in
      let (left, pkt, read, same) = OkLayout-read winnow flags from_utf8 capabilities layout in
      subst (SeenRows env capabilities ((seq, p) ∷ [])) same (seen_ok_end dep not_err closer read)
  Rows-seen (row {b} {bs} is_row r) =
      let (not_err, open_) =
        row-not_closer (flags.has_capability capabilities client_deprecate_eof) b bs is_row in
      seen_row (omega arith) not_err open_ (Rows-seen r)

  Columns-seen :
      {ps : List Numbered} {bits : ℕ}
      → Columns env capabilities ps bits
      → (w1 w2 s1 s2 : ℕ) × SeenColumns env capabilities ps (eof_bytes w1 w2 s1 s2)
        × (bits ≡ s1 + 256 * s2)
  Columns-seen (columns_end seq w1 w2 s1 s2) =
      (w1, w2, s1, s2, seen_columns_end (eof-seen w1 w2 s1 s2).0, refl)
  Columns-seen (column {b} {bs} ne c) =
      let (w1, w2, s1, s2, seen, same) = Columns-seen c in
      (w1, w2, s1, s2, seen_column (omega arith) (column-not_eof b bs ne) seen, same)

  cursor-seen :
      (w1 w2 s1 s2 bits status : ℕ)
      → bits ≡ s1 + 256 * s2
      → HasCursor env capabilities bits status
      → cursor_status env (eof_bytes w1 w2 s1 s2) ≡ done (some status)
  cursor-seen w1 w2 s1 s2 bits status same (known, has) = rw (← same) (rw (known, has))

  NoCursor-seen :
      (w1 w2 s1 s2 bits : ℕ)
      → bits ≡ s1 + 256 * s2
      → NoCursor env capabilities bits
      → cursor_status env (eof_bytes w1 w2 s1 s2) ≡ done none
  NoCursor-seen w1 w2 s1 s2 bits same (inl unknown) = rw (← same) (rw unknown)
  NoCursor-seen w1 w2 s1 s2 bits same (inr (status, known, has)) = rw (← same) (rw (known, has))

  ResultSet-seen :
      {ps : List Numbered} {status : ℕ}
      → ResultSet env capabilities ps status
      → SeenResultSet env capabilities ps status
  ResultSet-seen (short_result dep r) = seen_short_result dep (Rows-seen r)
  ResultSet-seen (cursor_result bits {status} dep c has) =
      let (w1, w2, s1, s2, seen, same) = Columns-seen c in
      seen_cursor_result dep seen (cursor-seen w1 w2 s1 s2 bits status same has)
  ResultSet-seen (full_result cs ps bits dep c free r) =
      let (w1, w2, s1, s2, seen, same) = Columns-seen c in
      seen_full_result dep seen (NoCursor-seen w1 w2 s1 s2 bits same free) (Rows-seen r)

  Answer-seen : {ps : List Numbered} → Answer env capabilities ps → SeenAnswer env capabilities ps
  Answer-seen (err_answer {bs} e) = seen_err_answer (err-seen bs) e
  Answer-seen (ok_answer status layout no_more) =
      let (left, pkt, read, same) = OkLayout-read winnow flags from_utf8 capabilities layout in
      seen_ok_answer (ok-seen layout) read (rw same no_more)
  Answer-seen (ok_then status layout more a) =
      let (left, pkt, read, same) = OkLayout-read winnow flags from_utf8 capabilities layout in
      seen_ok_then (ok-seen layout) read (rw same more) (Answer-seen a)
  Answer-seen (result_answer {b} {bs} status count r no_more) =
      seen_result_answer (omega arith) (count-IsHead b bs count) (ResultSet-seen r) no_more
  Answer-seen (result_then {b} {bs} ps qs status count r more a) =
      seen_result_then (omega arith) (count-IsHead b bs count) (ResultSet-seen r) more
        (Answer-seen a)

module _ (env : Environment) (K : Sink) (S : Source) (steady : Steady K) (capabilities : ℕ) where
  open K use {Writer, buf}
  open S use {Reader, Ahead}

  pub Rows-Relays :
      (fuel : ℕ) (d : Writer) (s : Reader) {ps : List Numbered} {status : ℕ} (rest : List Numbered)
      → Rows env capabilities ps status
      → length ps ≤ fuel
      → buf d ≡ []
      → Ahead s (ps ++ rest)
      → Relays K S (forward_until_result_end env K S fuel capabilities d s) status d ps rest
  Rows-Relays fuel d s rest r le empty ahead =
      SeenRows-Relays env K S steady capabilities fuel d s rest (Rows-seen env capabilities r) le
        empty ahead

  pub forward_query-Relays :
      (fuel : ℕ) (d : Writer) (s : Reader) {ps : List Numbered} (rest : List Numbered)
      → Answer env capabilities ps
      → length ps ≤ fuel
      → buf d ≡ []
      → Ahead s (ps ++ rest)
      → Relays K S (forward_query env K S fuel capabilities d s) tt d ps rest
  forward_query-Relays fuel d s rest a le empty ahead =
      SeenAnswer-Relays env K S steady capabilities fuel d s rest (Answer-seen env capabilities a)
        le empty ahead
