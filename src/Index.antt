-- ===== src/Index.antt =====
-- OpenDML index structures in memory. src/demuxer.rs: `AviIndexType`, `SuperIndexEntry`, `SuperIndex`,
-- `StdIndexEntry`, `StdIndex`. src/muxer.rs: `IxStdEntry`, `IxChunkRecord`.
-- `usize` is taken to be 64 bits wide.
pub mod Parse
pub mod Write
pub mod Super
pub mod Standard
pub mod Total
use oxideav_avi.Base.{ℕ, List, [], Bool, false, Option, none}
use oxideav_avi.Bytes.{Fourcc, fourcc}

pub data AviIndexType : Type 0 where
  of_indexes of_chunks is_data : AviIndexType
  other_type : ℕ → AviIndexType

pub record SuperIndexEntry : Type 0 where
  pub qw_offset : ℕ
  pub dw_size : ℕ
  pub dw_duration : ℕ

pub record StdIndexEntry : Type 0 where
  pub dw_offset : ℕ
  pub dw_size : ℕ
  pub is_keyframe : Bool
  pub dw_offset_field2 : ℕ

pub record StdIndex : Type 0 where
  pub own_fourcc : Fourcc
  pub chunk_offset : ℕ
  pub chunk_id : Fourcc
  pub qw_base_offset : ℕ
  pub b_index_sub_type : ℕ
  pub b_index_type : ℕ
  pub dw_reserved3 : ℕ
  pub declared_n_entries : ℕ
  pub entries : List StdIndexEntry

pub record SuperIndex : Type 0 where
  pub w_longs_per_entry : ℕ
  pub b_index_sub_type : ℕ
  pub b_index_type : ℕ
  pub present : Bool
  pub dw_reserved : ℕ × ℕ × ℕ
  pub chunk_id : Fourcc
  pub entries : List SuperIndexEntry
  pub strl_std_index : Option StdIndex

-- `SuperIndex::default()`.
abbrev pub default_super_index : SuperIndex
default_super_index = record {
  w_longs_per_entry = 0;
  b_index_sub_type = 0;
  b_index_type = 0;
  present = false;
  dw_reserved = (0, 0, 0);
  chunk_id = fourcc 0 0 0 0;
  entries = [];
  strl_std_index = none;
}

-- The muxer's side.
pub record IxStdEntry : Type 0 where
  pub dw_offset : ℕ
  pub dw_size_with_flag : ℕ
  pub dw_offset_field2 : ℕ

pub record IxChunkRecord : Type 0 where
  pub qw_offset : ℕ
  pub dw_size : ℕ
  pub dw_duration : ℕ

-- `AVI_INDEX_OF_INDEXES`, `AVI_INDEX_OF_CHUNKS`, `AVI_INDEX_IS_DATA`, `AVI_INDEX_SUB_2FIELD`.
abbrev pub avi_index_of_indexes : ℕ
avi_index_of_indexes = 0x00

abbrev pub avi_index_of_chunks : ℕ
avi_index_of_chunks = 0x01

abbrev pub avi_index_is_data : ℕ
avi_index_is_data = 0x80

abbrev pub avi_index_sub_2field : ℕ
avi_index_sub_2field = 0x01
