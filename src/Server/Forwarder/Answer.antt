-- ===== src/Server/Forwarder/Answer.antt =====
-- The answers of a backend, as the MySQL protocol describes them, byte by byte: rows up to a closing
-- packet, result sets with or without an EOF packet behind the column definitions, and results that
-- announce another one. None of this uses the program's own tests and readers of packets.
use haentgl.Prelude.{
  ℕ, ◌+◌, ◌*◌, ◌≤◌, ◌<◌, ◌≡◌, ◌≢◌, ◌⊎◌, true, false, none, some, List, [], ◌∷◌, ◌++◌, length,
}
use haentgl.Extern.Flags.{
  client_deprecate_eof, server_more_results_exists, server_status_cursor_exists,
}
use haentgl.Protocol.Basic.Layout.{OkLayout}
use haentgl.Protocol.Packet.{Packet}
use haentgl.Protocol.Link.{Numbered}
use haentgl.Server.Environment.{Environment}

-- A packet of five bytes: the header, the warnings and the status.
abbrev pub eof_bytes : ℕ → ℕ → ℕ → ℕ → Packet
eof_bytes w1 w2 s1 s2 = 0xfe ∷ w1 ∷ w2 ∷ s1 ∷ s2 ∷ []

-- The first byte of a row: not an error's, and 0xfe only on a row of 16 MiB and more.
abbrev pub IsRow : ℕ → List ℕ → Type 0
IsRow b bs = (b ≢ 0xff) × ((b ≢ 0xfe) ⊎ (16777214 ≤ length bs))

-- The first byte of the packet with the number of columns.
abbrev pub IsColumnCount : ℕ → Type 0
IsColumnCount b = (b ≢ 0x00) × (b ≢ 0xff) × (b ≢ 0xfb)

module _ (env : Environment) (capabilities : ℕ) where
  open env use {flags}
  open env.packets use {parse_err}

  -- Rows with the packet that ends them, and the status that it carries.
  pub data Rows : List Numbered → ℕ → Type 0 where
    err_end :
        {seq : ℕ} {bs : List ℕ}
        → parse_err capabilities (0xff ∷ bs) ≡ some tt
        → Rows ((seq, 0xff ∷ bs) ∷ []) 0
    eof_end :
        (seq w1 w2 s1 s2 : ℕ)
        → flags.has_capability capabilities client_deprecate_eof ≡ false
        → Rows ((seq, eof_bytes w1 w2 s1 s2) ∷ []) (flags.status_truncate (s1 + 256 * s2))
    ok_end :
        {seq status : ℕ} {p : Packet}
        → flags.has_capability capabilities client_deprecate_eof ≡ true
        → OkLayout flags capabilities 0xfe status p
        → length p < 16777215
        → Rows ((seq, p) ∷ []) status
    row :
        {seq status b : ℕ} {bs : List ℕ} {ps : List Numbered}
        → IsRow b bs
        → Rows ps status
        → Rows ((seq, b ∷ bs) ∷ ps) status

  -- Column definitions up to their EOF packet, with the status that it carries.
  pub data Columns : List Numbered → ℕ → Type 0 where
    columns_end :
        (seq w1 w2 s1 s2 : ℕ) → Columns ((seq, eof_bytes w1 w2 s1 s2) ∷ []) (s1 + 256 * s2)
    column :
        {seq b status : ℕ} {bs : List ℕ} {ps : List Numbered}
        → b ≢ 0xfe
        → Columns ps status
        → Columns ((seq, b ∷ bs) ∷ ps) status

  -- The status says that the rows stay in a cursor, or not.
  abbrev pub HasCursor : ℕ → ℕ → Type 0
  HasCursor bits status =
      (flags.status_from_bits bits ≡ some status)
      × (flags.has_status status server_status_cursor_exists ≡ true)

  abbrev pub NoCursor : ℕ → Type 0
  NoCursor bits =
      (flags.status_from_bits bits ≡ none)
      ⊎ ((status : ℕ) × (flags.status_from_bits bits ≡ some status)
          × (flags.has_status status server_status_cursor_exists ≡ false))

  -- What follows the first packet of a result set.
  pub data ResultSet : List Numbered → ℕ → Type 0 where
    short_result :
        {ps : List Numbered} {status : ℕ}
        → flags.has_capability capabilities client_deprecate_eof ≡ true
        → Rows ps status
        → ResultSet ps status
    cursor_result :
        (bits : ℕ) {ps : List Numbered} {status : ℕ}
        → flags.has_capability capabilities client_deprecate_eof ≡ false
        → Columns ps bits
        → HasCursor bits status
        → ResultSet ps status
    full_result :
        (cs ps : List Numbered) (bits : ℕ) {status : ℕ}
        → flags.has_capability capabilities client_deprecate_eof ≡ false
        → Columns cs bits
        → NoCursor bits
        → Rows ps status
        → ResultSet (cs ++ ps) status

  -- The answer to a query: OK packets and result sets, where the status of each but the last says
  -- that another one follows, or an error at the end.
  pub data Answer : List Numbered → Type 0 where
    err_answer :
        {seq : ℕ} {bs : List ℕ}
        → parse_err capabilities (0xff ∷ bs) ≡ some tt
        → Answer ((seq, 0xff ∷ bs) ∷ [])
    ok_answer :
        {seq : ℕ} {p : Packet} (status : ℕ)
        → OkLayout flags capabilities 0x00 status p
        → flags.has_status status server_more_results_exists ≡ false
        → Answer ((seq, p) ∷ [])
    ok_then :
        {seq : ℕ} {p : Packet} {ps : List Numbered} (status : ℕ)
        → OkLayout flags capabilities 0x00 status p
        → flags.has_status status server_more_results_exists ≡ true
        → Answer ps
        → Answer ((seq, p) ∷ ps)
    result_answer :
        {seq b : ℕ} {bs : List ℕ} {ps : List Numbered} (status : ℕ)
        → IsColumnCount b
        → ResultSet ps status
        → flags.has_status status server_more_results_exists ≡ false
        → Answer ((seq, b ∷ bs) ∷ ps)
    result_then :
        {seq b : ℕ} {bs : List ℕ} (ps qs : List Numbered) (status : ℕ)
        → IsColumnCount b
        → ResultSet ps status
        → flags.has_status status server_more_results_exists ≡ true
        → Answer qs
        → Answer ((seq, b ∷ bs) ∷ (ps ++ qs))
