-- ===== src/Sideband.antt =====
-- src/demuxer.rs: the typed bodies of side chunks, `CsetChunk` (`CSET`) and `PaletteChange` (`xxpc`).
pub mod Cset
pub mod Palette
pub mod Iterate
use oxideav_avi.Base.{
  ℕ, zero, suc, ◌+◌, ◌-◌, ◌%◌, List, [], ◌∷◌, ◌++◌, Option, none, some, Outcome, ok, err, panic,
  ◌>>=◌, length, drop, get_elem?, ltb, ◌==◌, if◌then◌else◌, invalid,
}
use oxideav_avi.Bytes.{le16, byte_at, u16_at}

pub record CsetChunk : Type 0 where
  pub offset : ℕ
  pub code_page : ℕ
  pub country_code : ℕ
  pub language_code : ℕ
  pub dialect : ℕ

unfoldable pub parse_cset : ℕ → List ℕ → Outcome (Option CsetChunk)
parse_cset offset body =
    let fields : Outcome (Option CsetChunk) = (do
      code_page ← u16_at body 0
      country_code ← u16_at body 2
      language_code ← u16_at body 4
      dialect ← u16_at body 6
      ok (
          some (record {
            offset = offset;
            code_page = code_page;
            country_code = country_code;
            language_code = language_code;
            dialect = dialect;
          }))) in
    if ltb (length body) 8 then ok none else fields

unfoldable pub cset_to_bytes : CsetChunk → List ℕ
cset_to_bytes c =
    le16 c.code_page ++ (le16 c.country_code ++ (le16 c.language_code ++ le16 c.dialect))

pub record PaletteEntry : Type 0 where
  pub red : ℕ
  pub green : ℕ
  pub blue : ℕ
  pub flags : ℕ

pub record PaletteChange : Type 0 where
  pub first_entry : ℕ
  pub num_entries : ℕ
  pub flags : ℕ
  pub entries : List PaletteEntry

-- `tail.as_chunks::<4>().0`: the whole groups of four bytes.
unfoldable pub parse_quads : List ℕ → List PaletteEntry
parse_quads (r ∷ g ∷ b ∷ f ∷ rest) =
    record { red = r; green = g; blue = b; flags = f } ∷ parse_quads rest
parse_quads _ = []

unfoldable pub parse_palette : List ℕ → Outcome (Option PaletteChange)
parse_palette body =
    let fields : Outcome (Option PaletteChange) = (do
      first_entry ← byte_at body 0
      num_entries ← byte_at body 1
      flags ← u16_at body 2
      ok (
          if length (drop 4 body) % 4 == 0
          then some (record {
            first_entry = first_entry;
            num_entries = num_entries;
            flags = flags;
            entries = parse_quads (drop 4 body);
          })
          else none)) in
    if ltb (length body) 4 then ok none else fields

unfoldable pub quads_to_bytes : List PaletteEntry → List ℕ
quads_to_bytes [] = []
quads_to_bytes (e ∷ es) = e.red ∷ e.green ∷ e.blue ∷ e.flags ∷ quads_to_bytes es

unfoldable pub palette_to_bytes : PaletteChange → List ℕ
palette_to_bytes p = p.first_entry ∷ p.num_entries ∷ (le16 p.flags ++ quads_to_bytes p.entries)

-- `PaletteChangeTypedIter`: the bodies and the place of the next one.
pub record PaletteIter : Type 0 where
  pub bodies : List (List ℕ)
  pub next : ℕ

-- `next`: the outer option is the iterator's end; the inner result is `Ok` or the error on a body
-- that does not decode.
unfoldable pub palette_next : PaletteIter → Outcome (Option (Outcome PaletteChange) × PaletteIter)
palette_next it = elim (get_elem? it.bodies it.next) [
  | none ↦ ok (none, it)
  | some body ↦ do
    found ← parse_palette body
    let it' = record it { next = it.next + 1 }
    elim found [ none ↦ ok (some (err invalid), it') | some p ↦ ok (some (ok p), it') ]
]

-- `size_hint`.
unfoldable pub palette_size_hint : PaletteIter → ℕ
palette_size_hint it = length it.bodies - it.next
