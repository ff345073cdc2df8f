-- ===== src/Protocol/Basic.antt =====
-- Length-encoded numbers, OK packets and the status of an EOF packet:
-- src/proxy/src/protocol/mysql/basic.rs. A text is the bytes of its UTF-8 form.
pub mod RoundTrip
pub mod Layout
use haentgl.Prelude.{
  ℕ, ◌+◌, ◌*◌, Bool, true, false, not, ◌&&◌, Option, none, some, List, [], ◌∷◌, ◌==◌, if◌then◌else◌,
}
use haentgl.Extern.Winnow.{Winnow, IResult, ok, ◌>>=◌}
use haentgl.Extern.Flags.{MysqlFlags, client_session_track, server_session_state_changed}

pub record OkPacket : Type 0 where
  pub header : ℕ
  pub affected_rows : ℕ
  pub last_insert_id : ℕ
  pub status_flags : ℕ
  pub warnings : ℕ
  pub info : List ℕ
  pub session_state_info : List ℕ

-- `connect_attributes` is the list of the pairs in the order of their insertion.
pub record HandshakeResponse : Type 0 where
  pub client_flag : ℕ
  pub max_packet_len : ℕ
  pub collation : ℕ
  pub tenant_key : Option (List ℕ)
  pub username : Option (List ℕ)
  pub auth_response : List ℕ
  pub auth_plugin : List ℕ
  pub database : Option (List ℕ)
  pub connect_attributes : Option (List (List ℕ × List ℕ))

-- `u64::from_le_bytes` on the array that is filled up with zeros.
abbrev pub le_value : List ℕ → ℕ
le_value [] = 0
le_value (b ∷ bs) = b + 256 * le_value bs

abbrev pub is_nil : List ℕ → Bool
is_nil [] = true
is_nil (b ∷ bs) = false

-- `from_utf8(..).unwrap_or("")`.
abbrev pub or_empty : Option (List ℕ) → List ℕ
or_empty none = []
or_empty (some s) = s

module _ (w : Winnow) where
  -- The number in `size` bytes.
  abbrev sized_number : ℕ → List ℕ → IResult ℕ
  sized_number size i = do (i, b) ← w.take size i; ok i (le_value b)

  -- The match on the first byte.
  abbrev after_first : ℕ → List ℕ → IResult ℕ
  after_first b i =
      if b == 0xfb
      then ok i 0
      else if b == 0xfc
      then sized_number 2 i
      else if b == 0xfd
      then sized_number 3 i
      else if b == 0xfe
      then sized_number 8 i
      else ok i b

  unfoldable pub read_length_encoded_number : List ℕ → IResult ℕ
  read_length_encoded_number i = do (i, b) ← w.le_u8 i; after_first b i

  pub read_length_encoded_string : List ℕ → IResult (List ℕ)
  read_length_encoded_string i = do (input, len) ← read_length_encoded_number i; w.take len input

  module _ (flags : MysqlFlags) (from_utf8 : List ℕ → Option (List ℕ)) where
    -- `none` is the panic of the slice on a packet of fewer than three bytes.
    unfoldable pub eof_server_status : List ℕ → Option (IResult ℕ)
    eof_server_status [] = none
    eof_server_status (a ∷ []) = none
    eof_server_status (a ∷ b ∷ []) = none
    eof_server_status (a ∷ b ∷ c ∷ i) =
        some
          (do (i, status_flags_code) ← w.le_u16 i; ok i (flags.status_truncate status_flags_code))

    abbrev pub session_state : ℕ → List ℕ → IResult (List ℕ)
    session_state status_flags i =
        if flags.has_status status_flags server_session_state_changed
        then (do
          (i, s_t_size) ← read_length_encoded_number i
          (i, session_state_info) ← w.take s_t_size i
          ok i (or_empty (from_utf8 session_state_info)))
        else ok i []

    -- The texts behind the warnings; the input that they leave is dropped.
    abbrev pub ok_texts : ℕ → ℕ → List ℕ → IResult (List ℕ × List ℕ)
    ok_texts capabilities status_flags i =
        if not (is_nil i) && flags.has_capability capabilities client_session_track
        then (do
          (i, info_size) ← read_length_encoded_number i
          (i, info) ← w.take info_size i
          (i, session_state_info) ← session_state status_flags i
          ok i (or_empty (from_utf8 info), session_state_info))
        else ok i ([], [])

    unfoldable pub ok_packet : List ℕ → ℕ → IResult OkPacket
    ok_packet i capabilities = do
      (i, header) ← w.le_u8 i
      (i, affected_rows) ← read_length_encoded_number i
      (i, last_insert_id) ← read_length_encoded_number i
      (i, status_flags) ← w.le_u16 i
      (i, warnings) ← w.le_u16 i
      (_, texts) ← ok_texts capabilities status_flags i
      ok i (record {
        header = header;
        affected_rows = affected_rows;
        last_insert_id = last_insert_id;
        status_flags = status_flags;
        warnings = warnings;
        info = texts.0;
        session_state_info = texts.1;
      })
