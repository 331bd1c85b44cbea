-- ===== src/Packets/Rounds.antt =====
-- src/demuxer.rs: what one round of `AviDemuxer::next_packet` comes to once it has read a chunk header.
use oxideav_avi.Base.{
  ℕ, ◌+◌, ◌≤◌, ◌<◌, ◌≡◌, refl, ◌∙◌, ap, List, Option, none, some, Bool, true, false, length, take,
  drop, get_or, set, arith, ltb, Bool-cases, inl, inr, ltb→lt, length-take, length-drop,
}
use oxideav_avi.Bytes.{same_fourcc}
use oxideav_avi.Io.{Cursor, remaining, stream_position}
use oxideav_avi.Riff.{ChunkHeader, list, skip_pad, skip_chunk, read_form_type}
use oxideav_avi.Seek.{elem_at}
use oxideav_avi.Stream.{parse_stream_index}
use oxideav_avi.Packets.{
  PacketState, packet_time_delta, lift, SidebandStore, read_body_bounded, sideband_round,
  buffer_body,
}
use oxideav_avi.Packets.Ends.{
  Ends, Ends-bind, Ends-if, Moved, BodyRead, header_in, skip_chunk-Ends, skip_pad-Ends,
  read_body_bounded-Ends, read_form_type-Ends,
}
use oxideav_avi.Packets.Loop.{
  skip_round, unpack_with, advance, stamp, make_packet, finish_body, packet_round, suffix_round,
  same_suffix, suffix_of, pc_suffix, accepts, palette_round, text_round, is_sideband_text,
  stream_round, body_round, is_junk, header_round,
}
use oxideav_avi.Packets.Delivery.{
  IsReady, AfterHeader, Short, unpack_with-Short, packet_time_delta-le, advance-Returns,
  elem_at-Returns, All-trivial, lift-Ends,
}

module _ (d : PacketState) (bytes : List ℕ) (off : ℕ) (hdr : ChunkHeader)
    (ready : IsReady (length bytes) d) (there : header_in (drop off bytes) ≡ some hdr) where
  make_packet-Ends :
      (i : ℕ) (wire : List ℕ) (c : Cursor)
      → parse_stream_index hdr.id ≡ some i
      → i < length d.streams
      → wire ≡ take hdr.size (drop (off + 8) bytes)
      → length wire ≡ hdr.size
      → length wire ≤ length bytes
      → c.bytes ≡ bytes
      → Ends (AfterHeader d bytes off) (make_packet d off i wire c)
  unfolding make_packet stamp
  make_packet-Ends i wire c names known w whole room same =
      Ends-bind _ (AfterHeader d bytes off) (lift (unpack_with (get_or d.raw_layouts i none) wire))
        _ c (lift-Ends (Short wire) _ c (unpack_with-Short d.raw_layouts i wire ready.layouts))
        (λ payload c₁ p.
          Ends-bind _ (AfterHeader d bytes off) (lift (elem_at d.streams i)) _ c₁
            (lift-Ends (λ _. Unit) _ c₁
              (elem_at-Returns _ d.streams i known (All-trivial d.streams)))
            (λ stream c₂ q.
              Ends-bind _ (AfterHeader d bytes off) (lift (elem_at d.per_stream_counter i)) _ c₂
                (lift-Ends _ _ c₂
                  (elem_at-Returns _ d.per_stream_counter i (rw ready.counters known) ready.low))
                (λ counter c₃ r.
                  let low = r.1.1 in
                  let short = p.1.1 in
                  let delta = packet_time_delta-le stream (length payload) in
                  Ends-bind _ (AfterHeader d bytes off)
                    (lift (advance counter (packet_time_delta stream (length payload)))) _ c₃
                    (lift-Ends _ _ c₃ (advance-Returns counter _ (omega arith)))
                    (λ next c₄ t. (
                      ap (λ x. x.bytes) (t.0 ∙ (r.0 ∙ (q.0 ∙ p.0))) ∙ same,
                      record {
                        off = off;
                        hdr = hdr;
                        wire = wire;
                        stream = stream;
                        counter = counter;
                        header_there = there;
                        wire_there = w;
                        wire_whole = whole;
                        names_stream = names;
                        known = q.1.0;
                        counted = r.1.0;
                        unpacked = p.1.0;
                        stamped = refl;
                        advanced = ap (set d.per_stream_counter i) t.1.1;
                      },
                    )))))

  -- A cursor behind the header.
  abbrev Behind : Cursor → Type 0
  Behind c = (c.bytes ≡ bytes) × (off + 8 ≤ c.pos)

  moved-Behind : (c c' : Cursor) → Behind c → Moved 0 c c' → Behind c'
  moved-Behind c c' h m = let a = h.1 in let b = m.forwards in (m.same ∙ h.0, omega arith)

  skip_round-Ends : (c : Cursor) → Behind c → Ends (AfterHeader d bytes off) (skip_round d hdr c)
  unfolding skip_round
  skip_round-Ends c h =
      Ends-bind _ (AfterHeader d bytes off) (skip_chunk hdr) _ c (skip_chunk-Ends hdr c)
        (λ _ c' m. (moved-Behind c c' h m, (refl, refl)))

  finish_body-Ends :
      (i : ℕ) (c : Cursor) (body : Option (List ℕ)) (c' : Cursor)
      → parse_stream_index hdr.id ≡ some i
      → i < length d.streams
      → c ≡ record { bytes = bytes; pos = off + 8 }
      → BodyRead hdr.size c body c'
      → Ends (AfterHeader d bytes off) (finish_body d off hdr i body c')
  unfolding finish_body
  finish_body-Ends i c none c' names known here b = tt
  finish_body-Ends i c (some wire) c' names known here b =
      let w : wire ≡ take hdr.size (drop (off + 8) bytes) =
        b.1 ∙ ap (λ x. take hdr.size (remaining x)) here in
      let room : length wire ≤ length bytes =
        rw w (
          omega
            (arith, length-take hdr.size (drop (off + 8) bytes), length-drop (off + 8) bytes)) in
      Ends-bind _ (AfterHeader d bytes off) (skip_pad hdr.size) _ c' (skip_pad-Ends hdr.size c')
        (λ _ c'' m.
          make_packet-Ends i wire c'' names known w b.2 room
            (m.same ∙ (b.0.same ∙ ap (λ x. x.bytes) here)))

  packet_round-Ends :
      (i : ℕ)
      → parse_stream_index hdr.id ≡ some i
      → i < length d.streams
      → Ends
          (AfterHeader d bytes off)
          (packet_round d off hdr i (record { bytes = bytes; pos = off + 8 }))
  unfolding packet_round
  packet_round-Ends i names known =
      let c : Cursor = record { bytes = bytes; pos = off + 8 } in
      Ends-bind (BodyRead hdr.size c) (AfterHeader d bytes off) (read_body_bounded hdr.size) _ c
        (read_body_bounded-Ends hdr.size c)
        (λ body c' b. finish_body-Ends i c body c' names known refl b)

  buffer_body-Ends :
      (s : ℕ) (st : SidebandStore) (body : Option (List ℕ)) (c c' : Cursor)
      → Behind c
      → BodyRead hdr.size c body c'
      → Ends (λ _ c''. Behind c'') (buffer_body hdr s st body c')
  unfolding buffer_body
  buffer_body-Ends s st none c c' h b =
      Ends-bind _ (λ _ c''. Behind c'') (skip_chunk hdr) _ c' (skip_chunk-Ends hdr c')
        (λ _ c'' m. moved-Behind c' c'' (moved-Behind c c' h b) m)
  buffer_body-Ends s st (some body) c c' h b =
      Ends-bind _ (λ _ c''. Behind c'') (skip_pad hdr.size) _ c' (skip_pad-Ends hdr.size c')
        (λ _ c'' m. moved-Behind c' c'' (moved-Behind c c' h b.0) m)

  sideband_round-Ends :
      (loaded : Bool) (s : ℕ) (st : SidebandStore) (c : Cursor)
      → Behind c
      → Ends (λ _ c'. Behind c') (sideband_round loaded hdr s st c)
  unfolding sideband_round
  sideband_round-Ends true s st c h =
      Ends-bind _ (λ _ c'. Behind c') (skip_chunk hdr) _ c (skip_chunk-Ends hdr c)
        (λ _ c' m. moved-Behind c c' h m)
  sideband_round-Ends false s st c h =
      Ends-bind (BodyRead hdr.size c) (λ _ c'. Behind c') (read_body_bounded hdr.size) _ c
        (read_body_bounded-Ends hdr.size c) (λ body c' b. buffer_body-Ends s _ body c c' h b)

  palette_round-Ends :
      (i : ℕ) (c : Cursor) → Behind c → Ends (AfterHeader d bytes off) (palette_round d hdr i c)
  unfolding palette_round
  palette_round-Ends i c h =
      Ends-bind (λ _. Behind) (AfterHeader d bytes off)
        (sideband_round d.sideband_data_loaded hdr i d.palette_change) _ c
        (sideband_round-Ends d.sideband_data_loaded i d.palette_change c h)
        (λ st c' b. (b, (refl, refl)))

  text_round-Ends :
      (i : ℕ) (c : Cursor) → Behind c → Ends (AfterHeader d bytes off) (text_round d hdr i c)
  unfolding text_round
  text_round-Ends i c h =
      Ends-bind (λ _. Behind) (AfterHeader d bytes off)
        (sideband_round d.sideband_data_loaded hdr i d.text_chunk) _ c
        (sideband_round-Ends d.sideband_data_loaded i d.text_chunk c h)
        (λ st c' b. (b, (refl, refl)))

  suffix_round-Ends :
      (i : ℕ) (expected : ℕ × ℕ)
      → parse_stream_index hdr.id ≡ some i
      → i < length d.streams
      → Ends
          (AfterHeader d bytes off)
          (suffix_round d off hdr i expected (record { bytes = bytes; pos = off + 8 }))
  unfolding suffix_round
  suffix_round-Ends i expected names known =
      let c : Cursor = record { bytes = bytes; pos = off + 8 } in
      let h : Behind c = (refl, omega arith) in
      elim (Bool-cases (same_suffix (suffix_of hdr.id) pc_suffix)) [
        | inl e ↦ rw e (palette_round-Ends i c h)
        | inr e ↦ elim (Bool-cases (is_sideband_text expected (suffix_of hdr.id))) [
          | inl f ↦ rw (e, f) (text_round-Ends i c h)
          | inr f ↦ elim (Bool-cases (accepts expected (suffix_of hdr.id))) [
            | inl g ↦ rw (e, f, g) (packet_round-Ends i names known)
            | inr g ↦ rw (e, f, g) (skip_round-Ends c h)
          ]
        ]
      ]

  stream_round-Ends :
      (o : Option ℕ)
      → parse_stream_index hdr.id ≡ o
      → Ends
          (AfterHeader d bytes off)
          (stream_round d off hdr o (record { bytes = bytes; pos = off + 8 }))
  unfolding stream_round
  stream_round-Ends none e = skip_round-Ends _ (refl, omega arith)
  stream_round-Ends (some i) e =
      let c : Cursor = record { bytes = bytes; pos = off + 8 } in
      Ends-if (AfterHeader d bytes off) (ltb i (length d.streams)) _ _ c
        (λ lt.
          let known = ltb→lt i (length d.streams) lt in
          Ends-bind _ (AfterHeader d bytes off) (lift (elem_at d.packet_chunk_suffix i)) _ c
            (lift-Ends _ _ c (
              elem_at-Returns _ d.packet_chunk_suffix i (rw ready.suffixes known)
                (All-trivial d.packet_chunk_suffix)))
            (λ expected c' p. rw p.0 (suffix_round-Ends i expected e known)))
        (λ _. skip_round-Ends c (refl, omega arith))

  body_round-Ends :
      (current_end : ℕ)
      → Ends
          (AfterHeader d bytes off)
          (body_round d off current_end hdr (off + 8) (record { bytes = bytes; pos = off + 8 }))
  unfolding body_round
  body_round-Ends current_end =
      let c : Cursor = record { bytes = bytes; pos = off + 8 } in
      Ends-if (AfterHeader d bytes off) (ltb current_end (off + 8 + hdr.size)) _ _ c (λ _. tt)
        (λ _.
          Ends-if (AfterHeader d bytes off) (is_junk hdr.id) _ _ c
            (λ _. skip_round-Ends c (refl, omega arith))
            (λ _. stream_round-Ends (parse_stream_index hdr.id) refl))

  pub found_round-Ends :
      (current_end : ℕ)
      → Ends
          (AfterHeader d bytes off)
          (header_round d off current_end (some hdr) (record { bytes = bytes; pos = off + 8 }))
  unfolding header_round stream_position
  found_round-Ends current_end =
      let c : Cursor = record { bytes = bytes; pos = off + 8 } in
      Ends-if (AfterHeader d bytes off) (same_fourcc hdr.id list) _ _ c
        (λ _.
          Ends-bind _ (AfterHeader d bytes off) read_form_type _ c (read_form_type-Ends c)
            (λ _ c' m. (moved-Behind c c' (refl, omega arith) m, (refl, refl))))
        (λ _. body_round-Ends current_end)
