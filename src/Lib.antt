-- ===== src/Lib.antt =====
-- A model of the AVI container of oxideav-avi, with the theorems about it. Paths are from the root of
-- the repository.
--
-- The program is a demuxer (src/demuxer.rs) and a muxer (src/muxer.rs) over RIFF chunks
-- (src/riff.rs). Both use the format headers of a stream (src/stream_format.rs), and the mapping of
-- uncompressed video (src/raw_dib.rs). The muxer writes chunks and index bodies that the demuxer
-- parses when it opens the file; from the parsed indexes the demuxer builds the tables that its
-- seeks search.
--
-- What the files model:
--   Base, Base/..    shared names, lists over native numbers, results of Rust calls (`Outcome`: a value,
--                    an error, a panic)
--   Bytes            little-endian integers and reads from a slice, which panic out of range
--   Io               `Read`, `Write` and `Seek` over a byte store with a position
--   Riff             src/riff.rs, and `read_chunk_header_lenient` of src/demuxer.rs; Riff/Write, Riff/Read
--                    and Riff/RoundTrip have the theorems
--   Stream           `packet_fourcc_for` (src/muxer.rs), `parse_stream_index` (src/demuxer.rs)
--   Index            the data of `indx` and `ix##`; Index/Parse is `parse_indx` and `parse_ix_chunk`
--                    (src/demuxer.rs), Index/Write the bodies of `flush_ix_for_track` and
--                    `patch_super_index` (src/muxer.rs); Index/Standard, Index/Super and Index/Total
--                    have the theorems
--   Idx1             `serialize_idx1` (src/muxer.rs), `build_idx_table`, `scan_idx1_sideband_counts`,
--                    `compute_palette_change_positions` (src/demuxer.rs)
--   Seek             `build_seek_cache`, `seek_cache_select_keyframe`; Seek/To is `seek_to` and
--                    `seek_via_std_indexes` with the demuxer state that they change (src/demuxer.rs)
--   Packets          `next_packet` and `packet_time_delta` (src/demuxer.rs): the state and the side-band
--                    chunks; Packets/Loop is the loop, Packets/Keyframes the map that `open_avi` builds for
--                    it; Packets/Ends, Packets/Delivery, Packets/Rounds and Packets/Total lead to what any
--                    call returns, Packets/Reading, Packets/Sequence, Packets/Movi and Packets/Playback to
--                    the calls over a run of packet chunks
--   Mux              `AviMuxer` (src/muxer.rs) while packets are written: state, padding; Mux/Segments has
--                    clusters, `ix##` flushes and segments, Mux/Packet is `write_packet`; Mux/Plain,
--                    Mux/Batch, Mux/Written and Mux/Padding have the theorems on files without clusters;
--                    Mux/Invariant, with Steps, Ticks, Closing, Rolling, Entries, Room, Counting and Open,
--                    follows the state of the muxer through every mode
--   Remux            the muxer and the demuxer together
--   Avih             `build_avih` (src/muxer.rs), `parse_avih` (src/demuxer.rs)
--   Vprp             `build_vprp_body` (src/muxer.rs), `parse_vprp` (src/demuxer.rs); Vprp/Tokens the enums
--   Format           bitmap headers, colour tables and WAVEFORMATEX of src/stream_format.rs; Format/Extensible
--                    is WAVEFORMATEXTENSIBLE with its GUIDs, Format/Channels has channel masks
--   RawDib           formats, headers and row layout of src/raw_dib.rs; RawDib/Frames packs and unpacks
--   Sideband         `CsetChunk`, `PaletteChange` and its iterator (src/demuxer.rs)
--   Tests            the theorems at concrete inputs
--
-- Conventions. A byte is a number below 256, an integer of w bits a number below 2 ^ w; wrap-around is
-- written out, and an overflow that panics in a checked build is a panic. An `i64` of timestamps is its
-- value plus 2 ^ 63. The counters of a track, its bytes and its samples included, panic past their width.
-- Positions in the output, and sums of positions and chunk sizes, the bytes of a cluster among them, are
-- exact numbers. How many bytes a `read` call grants is a
-- parameter. The reading loop of a chunk header runs on nine steps of fuel; each step but the last
-- reads a byte at least, and eight bytes end the loop. The loop of `next_packet` runs on one step for
-- each byte that is left and, for each segment that is left, as many as the file has bytes, and one
-- more: a round that goes on passes over a header of eight bytes or opens another segment. The zeros of
-- a `JUNK` chunk are written on as many steps as there are zeros. Every other loop is structural. The
-- demuxer's and the muxer's state after an error is left out.
--
-- Not modelled: opening a file and the walk over its chunks, the headers and the trailer of the muxer,
-- codec hints, INFO and text chunks, src/packaging.rs and src/video_config.rs, which need the
-- state of a whole file or stand alone; registration, tests, benches and fuzzing drivers, which have
-- no logic of their own; `oxideav_core`, which is not part of the repository.
pub mod Base
pub mod Bytes
pub mod Io
pub mod Riff
pub mod Stream
pub mod Sideband
pub mod Index
pub mod Avih
pub mod Vprp
pub mod Remux
pub mod Seek
pub mod Format
pub mod Idx1
pub mod Mux
pub mod Packets
pub mod RawDib
pub mod Tests
