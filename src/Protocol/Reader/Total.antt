-- ===== src/Protocol/Reader/Total.antt =====
-- The read loop ends.
use haentgl.Prelude.{
  ℕ, zero, suc, ◌-◌, ◌<◌, ◌≡◌, ap, Option, none, some, Option-cases, List, [], ◌∷◌, ◌++◌, length,
  inl, inr, arith, length-append,
}
use haentgl.Extern.Winnow.{Winnow}
use haentgl.Extern.Tokio.{AsyncRead}
use haentgl.Protocol.Reader.{
  PacketReader, Next, try_packet, make_room, store_read, at_end, next_loop, next_async,
  packet_buffer_size, packet_large_buffer_size, failed, read_failed,
}

module _ (w : Winnow) (io : AsyncRead) where
  abbrev pub Ends : Option (Next × PacketReader w io) → Type 0
  Ends o = (result : Next × PacketReader w io) × (o ≡ some result)

  next_loop_total :
      (fuel size : ℕ) (s : PacketReader w io)
      → length (io.pending s.r) < fuel
      → Ends (next_loop w io fuel size s)
  unfolding next_loop
  next_loop_total zero size s h = absurd (omega arith)
  next_loop_total (suc fuel) size s h =
      let s1 = make_room w io size s in
      let room = length s1.bytes - s1.remaining in
      elim (Option-cases (try_packet w io s)) [
        | inr (result, e) ↦ (result, rw (e, next_loop))
        | inl go_on ↦ elim (Option-cases (io.read s1.r room)) [
          | inl fail ↦ ((failed read_failed, s1), rw (go_on, next_loop) (rw (fail, next_loop)))
          | inr ((bs, r'), e) ↦
              after_read bs r' go_on e (λ s2. next_loop_total fuel packet_large_buffer_size s2)
        ]
      ]
    where
      after_read :
          (bs : List ℕ) (r' : io.Reader)
          → try_packet w io s ≡ none
          → io.read
              (make_room w io size s).r
              (length (make_room w io size s).bytes - (make_room w io size s).remaining)
            ≡ some (bs, r')
          → ((s2 : PacketReader w io)
              → length (io.pending s2.r) < fuel
              → Ends (next_loop w io fuel packet_large_buffer_size s2))
          → Ends (next_loop w io (suc fuel) size s)
      after_read [] r' go_on e ih = (
        at_end w io (store_read w io [] r' (make_room w io size s)),
        rw (go_on, next_loop) (rw (e, next_loop)),
      )
      after_read (b ∷ bs) r' go_on e ih =
          let s2 = store_read w io (b ∷ bs) r' (make_room w io size s) in
          let fewer : io.pending s.r ≡ (b ∷ bs) ++ io.pending r' =
            unfold make_room in io.read_pending _ _ _ _ e in
          rw (go_on, next_loop)
            (rw (e, next_loop)
              (ih s2 (
                unfold store_read in
                omega (arith, ap length fewer, length-append (b ∷ bs) (io.pending r')))))

  -- With more fuel than there are bytes to come, `next_async` ends, whatever the buffer holds,
  -- whatever bytes arrive, and also if a read fails.
  pub next_async_total :
      (fuel : ℕ) (s : PacketReader w io)
      → length (io.pending s.r) < fuel
      → Ends (next_async w io fuel s)
  unfolding next_async
  next_async_total fuel s h =
      next_loop_total fuel packet_buffer_size (record s { start = length s.bytes - s.remaining }) h
