-- ===== src/PktLine/Bands.antt =====
-- Proofs about the two demultiplexers of src/lib/transport/pkt-line.ts.
use just_git.Base.{
  ◌≡◌, Bool, true, false, Option, none, some, List, [], ◌∷◌, arith, Text, if◌then◌else◌,
}
use just_git.PktLine.Codec.{Bytes, PktLine, data_line, flush, delim, response_end}
use just_git.PktLine.Sideband.{
  Demux, Demuxed, completed, remote_error, is_band, demux_band, add_preamble, demux_from,
  demux_sideband_streaming, Bands, sort_band, sort_bands, demux_sideband,
}

abbrev pub first_error : List Text → Option Text
first_error [] = none
first_error (e ∷ es) = some e

-- The lines before the first one whose first byte is a band.
abbrev pub is_band_line : PktLine → Bool
unfolding is_band
is_band_line (data_line (byte ∷ payload)) = is_band byte
is_band_line _ = false

abbrev pub before_bands : List PktLine → List PktLine
unfolding is_band
before_bands [] = []
before_bands (line ∷ lines) =
    let rest = before_bands lines in if is_band_line line then [] else line ∷ rest

abbrev pub preamble : Bool → List PktLine → List PktLine
preamble in_sideband lines = if in_sideband then [] else before_bands lines

abbrev IsSortedAs : List PktLine → Demux → Bands → Type 0
IsSortedAs pre d b =
    (d.error ≡ first_error b.errors)
    × (b.errors ≡ []
        → (d.preamble_lines ≡ pre) × (d.pack_chunks ≡ b.pack_chunks) × (d.progress ≡ b.progress))

demux_from-sort_bands :
    (decode : Bytes → Text) (in_sideband : Bool) (lines : List PktLine)
    → IsSortedAs
        (preamble in_sideband lines)
        (demux_from decode in_sideband lines)
        (sort_bands decode lines)
unfolding demux_from sort_bands sort_band demux_band add_preamble is_band
demux_from-sort_bands decode true [] = ground arith
demux_from-sort_bands decode false [] = ground arith
demux_from-sort_bands decode true (data_line (first ∷ payload) ∷ lines) =
    ground (arith, demux_from-sort_bands decode true lines)
demux_from-sort_bands decode false (data_line (first ∷ payload) ∷ lines) =
    ground
      (arith, demux_from-sort_bands decode true lines, demux_from-sort_bands decode false lines)
demux_from-sort_bands decode in_sideband (data_line [] ∷ lines) =
    ground (arith, demux_from-sort_bands decode in_sideband lines)
demux_from-sort_bands decode in_sideband (flush ∷ lines) =
    ground (arith, demux_from-sort_bands decode in_sideband lines)
demux_from-sort_bands decode in_sideband (delim ∷ lines) =
    ground (arith, demux_from-sort_bands decode in_sideband lines)
demux_from-sort_bands decode in_sideband (response_end ∷ lines) =
    ground (arith, demux_from-sort_bands decode in_sideband lines)

abbrev pub thrown : Demuxed → Option Text
thrown (completed r) = none
thrown (remote_error message) = some message

-- The streaming demultiplexer throws the first error that the demultiplexer of a list collects,
-- and none where that one collects none.
pub demux_sideband_streaming-error :
    (decode : Bytes → Text) (lines : List PktLine)
    → thrown (demux_sideband_streaming decode lines).result
      ≡ first_error (demux_sideband decode lines).errors
unfolding demux_sideband_streaming demux_sideband
demux_sideband_streaming-error decode lines =
    ground (arith, demux_from-sort_bands decode false lines)

-- Where the demultiplexer of a list finds no error, the streaming one completes with the same
-- pack data and progress messages, and its preamble is the lines before the first one that
-- starts with a band.
pub demux_sideband_streaming-completed :
    (decode : Bytes → Text) (lines : List PktLine)
    → (demux_sideband decode lines).errors ≡ []
    → demux_sideband_streaming decode lines ≡ record {
      progress = (demux_sideband decode lines).progress;
      result = completed (record {
        pack_data = (demux_sideband decode lines).pack_data;
        preamble_lines = before_bands lines;
      });
    }
unfolding demux_sideband_streaming demux_sideband
demux_sideband_streaming-completed decode lines h =
    ground (arith, demux_from-sort_bands decode false lines)
