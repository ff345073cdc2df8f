-- ===== src/Protocol/Basic/Layout.antt =====
-- The layout of an OK packet as the MySQL protocol describes it, and what `ok_packet` of
-- src/proxy/src/protocol/mysql/basic.rs reads from it.
use haentgl.Prelude.{
  ℕ, ◌+◌, ◌*◌, ◌<◌, ◌≡◌, refl, ◌∙◌, true, false, Bool-cases, inl, inr, List, [], ◌∷◌, ◌++◌, Option,
  length, arith, take, drop, length-append,
}
use haentgl.Extern.Winnow.{Winnow, ok}
use haentgl.Extern.Lenenc.{lenenc}
use haentgl.Extern.Flags.{MysqlFlags, client_session_track, server_session_state_changed}
use haentgl.Protocol.Basic.{OkPacket, ok_packet, ok_texts, or_empty, is_nil}
use haentgl.Protocol.Basic.RoundTrip.{read-write_lenenc_int}
use haentgl.Protocol.Packet.{Packet}

-- A length-encoded number, and a text with its length before it.
abbrev pub number : ℕ → List ℕ
number n = lenenc.write_lenenc_int n

abbrev pub text : List ℕ → List ℕ → List ℕ
text t rest = number (length t) ++ (t ++ rest)

-- The texts behind the warnings. With session tracking there is an information text, and behind it
-- the state of the session, if the status says that it has changed.
pub data Texts (flags : MysqlFlags) (capabilities status : ℕ) : List ℕ → Type 0 where
  no_texts : Texts flags capabilities status []
  untracked :
      {t : List ℕ}
      → flags.has_capability capabilities client_session_track ≡ false
      → Texts flags capabilities status t
  info_only :
      (info rest : List ℕ)
      → length info < 18446744073709551616
      → flags.has_status status server_session_state_changed ≡ false
      → Texts flags capabilities status (text info rest)
  with_state :
      (info state rest : List ℕ)
      → length info < 18446744073709551616
      → length state < 18446744073709551616
      → flags.has_status status server_session_state_changed ≡ true
      → Texts flags capabilities status (text info (text state rest))

-- Header, affected rows, last identifier, the two bytes of the status, two of warnings, the texts.
pub data OkLayout (flags : MysqlFlags) (capabilities : ℕ) : ℕ → ℕ → Packet → Type 0 where
  ok_layout :
      (header rows id s1 s2 w1 w2 : ℕ) (texts : List ℕ)
      → rows < 18446744073709551616
      → id < 18446744073709551616
      → Texts flags capabilities (s1 + 256 * s2) texts
      → OkLayout flags capabilities header
          (s1 + 256 * s2)
          (header ∷ (number rows ++ (number id ++ (s1 ∷ s2 ∷ w1 ∷ w2 ∷ texts))))

take_self : (t rest : List ℕ) → take (length t) (t ++ rest) ≡ t
take_self [] rest = refl
take_self (b ∷ t) rest = rw (take_self t rest)

drop_self : (t rest : List ℕ) → drop (length t) (t ++ rest) ≡ rest
drop_self [] rest = refl
drop_self (b ∷ t) rest = drop_self t rest

number-not_nil : (n : ℕ) (rest : List ℕ) → is_nil (number n ++ rest) ≡ false
number-not_nil n rest = ground arith

module _ (w : Winnow) (flags : MysqlFlags) (from_utf8 : List ℕ → Option (List ℕ))
    (capabilities : ℕ) where
  taken_text : (t rest : List ℕ) → w.take (length t) (t ++ rest) ≡ ok rest t
  taken_text t rest =
      w.take_ok (length t) (t ++ rest) (omega (arith, length-append t rest))
      ∙ rw (take_self t rest, drop_self t rest)

  no_tracking :
      (status : ℕ) (t : List ℕ)
      → flags.has_capability capabilities client_session_track ≡ false
      → ok_texts w flags from_utf8 capabilities status t ≡ ok t ([], [])
  no_tracking status [] h = refl
  no_tracking status (b ∷ t) h = rw h

  Texts-read :
      {status : ℕ} {t : List ℕ}
      → Texts flags capabilities status t
      → (left : List ℕ) × (info : List ℕ) × (state : List ℕ) × (ok_texts w flags from_utf8
            capabilities status t
          ≡ ok left (info, state))
  Texts-read no_texts = ([], [], [], refl)
  Texts-read {status} (untracked {t} h) = (t, [], [], no_tracking status t h)
  Texts-read {status} (info_only info rest len h) =
      elim (Bool-cases (flags.has_capability capabilities client_session_track)) [
        | inl on ↦ (
          rest,
          or_empty (from_utf8 info),
          [],
          rw (number-not_nil (length info) (info ++ rest), on)
              (rw (
                read-write_lenenc_int w lenenc (length info) (info ++ rest) len,
                taken_text info rest,
                h,
              )),
        )
        | inr off ↦ (text info rest, [], [], no_tracking status (text info rest) off)
      ]
  Texts-read {status} (with_state info state rest len len' h) =
      elim (Bool-cases (flags.has_capability capabilities client_session_track)) [
        | inl on ↦ (
          rest,
          or_empty (from_utf8 info),
          or_empty (from_utf8 state),
          rw (number-not_nil (length info) (info ++ text state rest), on)
              (rw (
                read-write_lenenc_int w lenenc (length info) (info ++ text state rest) len,
                taken_text info (text state rest),
                h,
                read-write_lenenc_int w lenenc (length state) (state ++ rest) len',
                taken_text state rest,
              )),
        )
        | inr off ↦ (
          text info (text state rest),
          [],
          [],
          no_tracking status (text info (text state rest)) off,
        )
      ]

  -- `ok_packet` accepts a packet of this layout, and reads its status.
  pub OkLayout-read :
      {header status : ℕ} {p : Packet}
      → OkLayout flags capabilities header status p
      → (left : List ℕ) × (ok_pkt : OkPacket) × (ok_packet w flags from_utf8 p capabilities
          ≡ ok left ok_pkt)
        × (ok_pkt.status_flags ≡ status)
  unfolding ok_packet
  OkLayout-read (ok_layout header rows id s1 s2 w1 w2 texts hr hi t) =
      let (left, info, state, read) = Texts-read t in
      let tail = s1 ∷ s2 ∷ w1 ∷ w2 ∷ texts in
      let pkt : OkPacket = record {
        header = header;
        affected_rows = rows;
        last_insert_id = id;
        status_flags = s1 + 256 * s2;
        warnings = w1 + 256 * w2;
        info = info;
        session_state_info = state;
      } in
      (
        texts,
        pkt,
        rw (
          w.le_u8_ok header (number rows ++ (number id ++ tail)),
          read-write_lenenc_int w lenenc rows (number id ++ tail) hr,
          read-write_lenenc_int w lenenc id tail hi,
          w.le_u16_ok s1 s2 (w1 ∷ w2 ∷ texts),
          w.le_u16_ok w1 w2 texts,
          read,
        ),
        refl,
      )
