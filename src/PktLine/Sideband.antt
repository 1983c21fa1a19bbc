-- ===== src/PktLine/Sideband.antt =====
-- The sideband demultiplexers of src/lib/transport/pkt-line.ts: the streaming one, which reads a
-- preamble first and stops at an error, and the one of a whole list.
use just_git.Base.{
  ℕ, Bool, false, ◌||◌, ◌&&◌, Option, none, some, List, [], ◌∷◌, Text, leb, ◌==◌, if◌then◌else◌,
}
use just_git.PktLine.Codec.{Bytes, PktLine, data_line, flush, delim, response_end, concat_pkt_lines}

abbrev pub band_data : ℕ
band_data = 1

abbrev pub band_progress : ℕ
band_progress = 2

abbrev pub band_error : ℕ
band_error = 3

pub record StreamingSidebandResult : Type 0 where
  pub pack_data : Bytes
  pub preamble_lines : List PktLine

-- The loop's variables, with the messages given to `onProgress` and the error thrown.
pub record Demux : Type 0 where
  pub preamble_lines : List PktLine
  pub pack_chunks : List Bytes
  pub progress : List Text
  pub error : Option Text

pub data Demuxed : Type 0 where
  completed : StreamingSidebandResult → Demuxed
  remote_error : Text → Demuxed

pub record DemuxRun : Type 0 where
  pub progress : List Text
  pub result : Demuxed

-- The test for the change to sideband mode.
unfoldable pub is_band : ℕ → Bool
is_band byte = leb 1 byte && leb byte 3

-- The `switch` of the streaming loop, in front of what the later lines add.
unfoldable pub demux_band : (Bytes → Text) → ℕ → Bytes → Demux → Demux
demux_band decode byte payload rest =
    if byte == band_data
    then record rest { pack_chunks = payload ∷ rest.pack_chunks }
    else if byte == band_progress
    then record rest { progress = decode payload ∷ rest.progress }
    else if byte == band_error
    then record {
      preamble_lines = [];
      pack_chunks = [];
      progress = [];
      error = some (decode payload);
    }
    else rest

-- `if (!inSideband) preambleLines.push(line)`
unfoldable pub add_preamble : Bool → PktLine → Demux → Demux
add_preamble in_sideband line rest =
    if in_sideband then rest else record rest { preamble_lines = line ∷ rest.preamble_lines }

unfoldable pub demux_from : (Bytes → Text) → Bool → List PktLine → Demux
unfolding is_band
demux_from decode in_sideband [] = record {
  preamble_lines = [];
  pack_chunks = [];
  progress = [];
  error = none;
}
demux_from decode in_sideband (data_line (first ∷ payload) ∷ lines) =
    let now_in = in_sideband || is_band first in
    let rest = demux_from decode now_in lines in
    if now_in
    then demux_band decode first payload rest
    else add_preamble false (data_line (first ∷ payload)) rest
demux_from decode in_sideband (data_line [] ∷ lines) =
    add_preamble in_sideband (data_line []) (demux_from decode in_sideband lines)
demux_from decode in_sideband (flush ∷ lines) =
    add_preamble in_sideband flush (demux_from decode in_sideband lines)
demux_from decode in_sideband (delim ∷ lines) =
    add_preamble in_sideband delim (demux_from decode in_sideband lines)
demux_from decode in_sideband (response_end ∷ lines) =
    add_preamble in_sideband response_end (demux_from decode in_sideband lines)

unfoldable pub demux_sideband_streaming : (Bytes → Text) → List PktLine → DemuxRun
demux_sideband_streaming decode lines =
    let d = demux_from decode false lines in
    record {
      progress = d.progress;
      result = elim d.error [
        | some message ↦ remote_error message
        | none ↦ completed (record {
          pack_data = concat_pkt_lines d.pack_chunks;
          preamble_lines = d.preamble_lines;
        })
      ];
    }

pub record SidebandResult : Type 0 where
  pub pack_data : Bytes
  pub progress : List Text
  pub errors : List Text

-- The arrays of the second demultiplexer.
pub record Bands : Type 0 where
  pub pack_chunks : List Bytes
  pub progress : List Text
  pub errors : List Text

unfoldable pub sort_band : (Bytes → Text) → PktLine → Bands → Bands
sort_band decode (data_line (band ∷ payload)) rest =
    if band == band_data
    then record rest { pack_chunks = payload ∷ rest.pack_chunks }
    else if band == band_progress
    then record rest { progress = decode payload ∷ rest.progress }
    else if band == band_error
    then record rest { errors = decode payload ∷ rest.errors }
    else rest
sort_band decode (data_line []) rest = rest
sort_band decode flush rest = rest
sort_band decode delim rest = rest
sort_band decode response_end rest = rest

unfoldable pub sort_bands : (Bytes → Text) → List PktLine → Bands
unfolding sort_band
sort_bands decode [] = record { pack_chunks = []; progress = []; errors = [] }
sort_bands decode (line ∷ lines) = sort_band decode line (sort_bands decode lines)

unfoldable pub demux_sideband : (Bytes → Text) → List PktLine → SidebandResult
demux_sideband decode lines =
    let b = sort_bands decode lines in
    record { pack_data = concat_pkt_lines b.pack_chunks; progress = b.progress; errors = b.errors }
