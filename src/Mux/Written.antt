-- ===== src/Mux/Written.antt =====
-- src/muxer.rs: what a run of `AviMuxer::write_packet` calls leaves in an AVI 1.0 file and in its index.
use oxideav_avi.Base.{
  ℕ, ◌+◌, ◌-◌, ◌^◌, ◌≤◌, ◌≡◌, refl, sym, ◌∙◌, ap, List, [], ◌∷◌, ◌++◌, none, some, ok, Outcome,
  length, Bool-cases, inl, inr, get_elem?, ◌==◌, arith, le→leb, append_assoc, append-nil,
  length-append,
}
use oxideav_avi.Bytes.{Fourcc}
use oxideav_avi.Io.{Cursor, ◌>>=◌}
use oxideav_avi.Riff.{u32_max}
use oxideav_avi.Riff.Write.{at_end, chunk_bytes}
use oxideav_avi.Packets.Reading.{Item, item_bytes}
use oxideav_avi.Packets.Sequence.{item_size, length-item_bytes}
use oxideav_avi.Packets.Movi.{movi_bytes}
use oxideav_avi.Mux.{OutPacket, TrackState, Muxer, contains, relaid, sample_count_of_packet}
use oxideav_avi.Mux.Packet.{chunk_len, packet_flags, with_entry, write_packet}
use oxideav_avi.Mux.Ticks.{
  most_ticks, all_ticks, u32_max-most_ticks, sample_count_of_packet-most_ticks,
}
use oxideav_avi.Mux.Plain.{Fits, bump_first, after_packet, write_packet-eq}
use oxideav_avi.Mux.Batch.{
  write_packets, names, name_at, item_of, items_of, entries_of, TrackHasRoom, HasRoom, get_track,
  names-update, length-update, tracks-update,
}

with_entry-eq :
    (m : Muxer) (id : Fourcc) (flags off size : ℕ)
    → m.segments ≡ []
    → m.movi_start_off ≤ off
    → off - m.movi_start_off ≤ u32_max
    → with_entry m id flags off size
      ≡ m.index
        ++ record { ckid = id; flags = flags; offset = off - m.movi_start_off; size = size } ∷ []
unfolding with_entry
with_entry-eq m id flags off size e h k =
    rw (e, le→leb m.movi_start_off off h, le→leb (off - m.movi_start_off) u32_max k) refl

relaid-plain : (t : TrackState) (p : OutPacket) → t.raw_layout ≡ none → relaid t p ≡ ok p.payload
unfolding relaid
relaid-plain t p e = elim (Bool-cases p.header) [ inl h ↦ rw h refl | inr h ↦ rw (h, e) refl ]

bump_first-le : (i n : ℕ) → bump_first i n ≤ n + 1
bump_first-le i n = elim (Bool-cases (i == 0)) [
  | inl e ↦ rw e (omega arith)
  | inr e ↦ rw e (omega arith)
]

-- What a run leaves behind: the chunks of the packets in the file, their entries in the index, and the
-- rest of the muxer that later calls rely on.
pub record Written (m : Muxer) (buf : List ℕ) (ps : List OutPacket) (m' : Muxer) : Type 0 where
  pub index :
      m'.index
      ≡ m.index
        ++ entries_of (names m.tracks) m.options.field2_streams m.movi_start_off (length buf) ps
  pub names_kept : names m'.tracks ≡ names m.tracks
  pub options_kept : m'.options ≡ m.options
  pub place_kept : m'.movi_start_off ≡ m.movi_start_off

module _ (m : Muxer) (buf : List ℕ) (p : OutPacket) (ps : List OutPacket)
    (room : HasRoom m (length buf) (p ∷ ps)) where
  abbrev found :
      (t : TrackState) × (get_elem? m.tracks p.stream_index ≡ some t)
      × ((t.packet_fourcc ≡ name_at (names m.tracks) p.stream_index)
          × TrackHasRoom (length (p ∷ ps)) (all_ticks (p ∷ ps)) t)
  found =
      get_track (length (p ∷ ps)) (all_ticks (p ∷ ps)) m.tracks p.stream_index room.packets.0.0
        room.tracks

  abbrev it : Item
  it = item_of (names m.tracks) p

  chunk_below : length buf + item_size it ≤ 2 ^ 31 - 1024
  unfolding movi_bytes
  chunk_below =
      let c = room.below_ceiling in
      omega (
        arith,
        length-append (item_bytes it) (movi_bytes (items_of (names m.tracks) ps)),
        length-item_bytes it,
      )

  few_samples : sample_count_of_packet found.0 (length p.payload) p.duration ≤ most_ticks p.duration
  few_samples =
      sample_count_of_packet-most_ticks found.0 (length p.payload) p.duration room.packets.0.1

  few_bytes : length p.payload ≤ most_ticks p.duration
  few_bytes = let small = room.packets.0.1 in let big = u32_max-most_ticks p.duration in omega arith

  first-Fits : Fits m p found.0 p.payload (length buf)
  unfolding all_ticks
  first-Fits =
      let r = found.2.1 in
      let a = room.in_segment in
      let b = room.indexed in
      let c = chunk_below in
      record {
        known = found.1;
        relaid = relaid-plain found.0 p r.0;
        payload = room.packets.0.1;
        wire_fits = room.packets.0.1;
        packets = let d = r.1.0 in omega arith;
        bytes = let d = r.1.1.0 in let e = few_bytes in omega arith;
        samples = let d = r.1.1.1 in let e = few_samples in omega arith;
        in_segment = omega arith;
        indexed = omega arith;
        below_ceiling = omega arith;
      }

  abbrev next : Muxer
  next = after_packet m p found.0 p.payload (length buf)

  abbrev next_buf : List ℕ
  next_buf = buf ++ item_bytes it

  names_next : names next.tracks ≡ names m.tracks
  names_next = names-update m.tracks p.stream_index (length p.payload) p.duration found.0 found.1

  room_next : HasRoom next (length next_buf) ps
  unfolding movi_bytes all_ticks
  room_next =
      let r = found.2.1 in
      let a = room.in_segment in
      let b = room.indexed in
      let c = room.in_movi in
      let d = room.below_ceiling in
      record {
        plain = record {
          header_written = room.plain.header_written;
          kind = room.plain.kind;
          no_packets_cap = room.plain.no_packets_cap;
          no_bytes_cap = room.plain.no_bytes_cap;
          no_padding = room.plain.no_padding;
        };
        primary = room.primary;
        tracks =
            tracks-update (length ps) (most_ticks p.duration) (all_ticks ps) m.tracks p.stream_index
              (length p.payload) p.duration found.0 r few_bytes few_samples room.tracks;
        packets = rw (length-update m.tracks p.stream_index _) room.packets.1;
        in_segment = omega arith;
        indexed = omega (arith, bump_first-le p.stream_index m.current_segment_indexed_packets);
        in_movi = omega (arith, length-append buf (item_bytes it));
        below_ceiling = rw names_next (
            omega (
              arith,
              length-append buf (item_bytes it),
              length-append (item_bytes it) (movi_bytes (items_of (names m.tracks) ps)),
            ));
      }

  write_packet-first : write_packet m p (at_end buf) ≡ ok (next, at_end next_buf)
  write_packet-first =
      write_packet-eq m p found.0 p.payload buf room.plain first-Fits
      ∙ ap (λ id. ok (next, at_end (buf ++ chunk_bytes id (length p.payload) p.payload))) found.2.0

  index_next :
      next.index
      ≡ m.index
        ++ record {
          ckid = name_at (names m.tracks) p.stream_index;
          flags = packet_flags p.keyframe (contains p.stream_index m.options.field2_streams);
          offset = length buf - m.movi_start_off;
          size = length p.payload;
        }
          ∷ []
  index_next =
      let c = chunk_below in
      rw (← found.2.0) (with_entry-eq _ _ _ (length buf) _ room.primary room.in_movi (omega arith))

write_packets-cons :
    (ps : List OutPacket) (m m₁ : Muxer) (p : OutPacket) (c c₁ : Cursor)
    (r : Outcome (Muxer × Cursor))
    → write_packet m p c ≡ ok (m₁, c₁)
    → write_packets ps m₁ c₁ ≡ r
    → write_packets (p ∷ ps) m c ≡ r
unfolding write_packets
write_packets-cons ps m m₁ p c c₁ r e₁ e₂ = rw (e₁, ◌>>=◌) e₂

-- A run of calls succeeds where there is room for its packets: it appends the packets' chunks, in
-- their order and with nothing between them, and enters each in the index with its FourCC, its flags,
-- its size and the place where its chunk stands in `movi`. The file is an AVI 1.0 file without
-- clusters and padding, its frames are written as they are.
pub write_packets-Written :
    (ps : List OutPacket) (m : Muxer) (buf : List ℕ)
    → HasRoom m (length buf) ps
    → (m' : Muxer) × (write_packets ps m (at_end buf)
        ≡ ok (m', at_end (buf ++ movi_bytes (items_of (names m.tracks) ps))))
      × Written m buf ps m'
unfolding write_packets movi_bytes entries_of
write_packets-Written [] m buf room = (
  m,
  ap (λ b. ok (m, at_end b)) (sym (append-nil buf)),
  record {
    index = sym (append-nil m.index);
    names_kept = refl;
    options_kept = refl;
    place_kept = refl;
  },
)
write_packets-Written (p ∷ ps) m buf room =
    let ih =
      write_packets-Written ps (next m buf p ps room) (next_buf m buf p ps room)
        (room_next m buf p ps room) in
    let w = ih.2 in
    let same = names_next m buf p ps room in
    let size : length (next_buf m buf p ps room) ≡ length buf + chunk_len (length p.payload) =
      length-append buf (item_bytes (it m buf p ps room))
      ∙ ap (λ k. length buf + k) (length-item_bytes (it m buf p ps room)) in
    (
      ih.0,
      write_packets-cons ps m _ p _ _ _ (write_packet-first m buf p ps room) ih.1
          ∙ ap (λ b. ok (ih.0, at_end b))
              (ap (λ fs. next_buf m buf p ps room ++ movi_bytes (items_of fs ps)) same
                ∙ append_assoc buf (item_bytes (it m buf p ps room)) _),
      record {
        index =
            w.index
            ∙ (ap
                  (λ fs.
                    (next m buf p ps room).index
                    ++ entries_of fs m.options.field2_streams m.movi_start_off
                        (length (next_buf m buf p ps room)) ps)
                  same
                ∙ (ap
                      (λ n.
                        (next m buf p ps room).index
                        ++ entries_of (names m.tracks) m.options.field2_streams m.movi_start_off n
                            ps)
                      size
                    ∙ (ap
                          (λ es.
                            es
                            ++ entries_of (names m.tracks) m.options.field2_streams m.movi_start_off
                                (length buf + chunk_len (length p.payload)) ps)
                          (index_next m buf p ps room)
                        ∙ append_assoc m.index _ _)));
        names_kept = w.names_kept ∙ same;
        options_kept = w.options_kept;
        place_kept = w.place_kept;
      },
    )
