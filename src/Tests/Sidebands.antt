-- ===== src/Tests/Sidebands.antt =====
-- Side-band bodies at concrete inputs.
use oxideav_avi.Base.{
  suc, ℕ, ◌≡◌, ◌≤◌, ◌%◌, ◌↔◌, refl, List, [], ◌∷◌, ◌++◌, some, ok, arith, length, take,
}
use oxideav_avi.Sideband.{
  CsetChunk, PaletteChange, PaletteIter, palette_next, palette_size_hint, parse_cset, cset_to_bytes,
  parse_palette, palette_to_bytes,
}
use oxideav_avi.Bytes.Laws.{Returns}
use oxideav_avi.Sideband.Iterate.{collect, all_decoded, collect-all_decoded}
use oxideav_avi.Sideband.Cset.{parse_cset-cset_to_bytes, cset_to_bytes-parse_cset}
use oxideav_avi.Sideband.Palette.{
  parse_palette-palette_to_bytes, palette_to_bytes-parse_palette, parse_palette_iff,
}

abbrev german : CsetChunk
german = record {
  offset = 400;
  code_page = 1252;
  country_code = 49;
  language_code = 7;
  dialect = 1;
}

abbrev german_bytes : List ℕ
german_bytes = 228 ∷ 4 ∷ 49 ∷ 0 ∷ 7 ∷ 0 ∷ 1 ∷ 0 ∷ 99 ∷ []

parse_cset-cset_to_bytes_example :
    parse_cset 400 (cset_to_bytes german ++ 99 ∷ []) ≡ ok (some german)
parse_cset-cset_to_bytes_example = parse_cset-cset_to_bytes german (99 ∷ []) (record {
  code_page = omega arith;
  country_code = omega arith;
  language_code = omega arith;
  dialect = omega arith;
})

german_parsed : parse_cset 400 german_bytes ≡ ok (some german)
unfolding parse_cset oxideav_avi.Bytes.u16_at oxideav_avi.Bytes.of_le16
german_parsed = refl

cset_to_bytes-parse_cset_example : cset_to_bytes german ≡ take 8 german_bytes
cset_to_bytes-parse_cset_example =
    cset_to_bytes-parse_cset 400 german_bytes german
      (
        omega arith,
        (
          omega arith,
          (
            omega arith,
            (
              omega arith,
              (omega arith, (omega arith, (omega arith, (omega arith, (omega arith, tt))))),
            ),
          ),
        ),
      )
      german_parsed

abbrev one_color : PaletteChange
one_color = record {
  first_entry = 5;
  num_entries = 1;
  flags = 0;
  entries = record { red = 10; green = 20; blue = 30; flags = 4 } ∷ [];
}

abbrev one_color_bytes : List ℕ
one_color_bytes = 5 ∷ 1 ∷ 0 ∷ 0 ∷ 10 ∷ 20 ∷ 30 ∷ 4 ∷ []

parse_palette-palette_to_bytes_example :
    parse_palette (palette_to_bytes one_color) ≡ ok (some one_color)
parse_palette-palette_to_bytes_example = parse_palette-palette_to_bytes one_color (omega arith)

one_color_parsed : parse_palette one_color_bytes ≡ ok (some one_color)
unfolding parse_palette oxideav_avi.Sideband.parse_quads oxideav_avi.Bytes.u16_at
    oxideav_avi.Bytes.of_le16
one_color_parsed = refl

palette_to_bytes-parse_palette_example : palette_to_bytes one_color ≡ one_color_bytes
palette_to_bytes-parse_palette_example =
    palette_to_bytes-parse_palette one_color_bytes one_color
      (
        omega arith,
        (
          omega arith,
          (
            omega arith,
            (omega arith, (omega arith, (omega arith, (omega arith, (omega arith, tt))))),
          ),
        ),
      )
      one_color_parsed

parse_palette_iff_example :
    Returns (parse_palette one_color_bytes)
    × (((p : PaletteChange) × (parse_palette one_color_bytes ≡ ok (some p)))
        ↔ ((4 ≤ length one_color_bytes) × (length one_color_bytes % 4 ≡ 0)))
parse_palette_iff_example = parse_palette_iff one_color_bytes

abbrev two_bodies : PaletteIter
two_bodies = record { bodies = one_color_bytes ∷ (1 ∷ []) ∷ []; next = 0 }

collect-all_decoded_example :
    (rest : PaletteIter) × (collect (suc (palette_size_hint two_bodies)) two_bodies
      ≡ ok (all_decoded two_bodies, rest))
    × ((length (all_decoded two_bodies) ≡ palette_size_hint two_bodies)
        × (palette_size_hint rest ≡ 0))
collect-all_decoded_example = collect-all_decoded two_bodies
