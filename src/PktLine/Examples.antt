-- ===== src/PktLine/Examples.antt =====
-- The theorems on the wire framing at concrete bytes.
use just_git.Base.{◌≡◌, refl, List, [], ◌∷◌, Text}
use just_git.Base.ParseInt.Hex.{hex_digit}
use just_git.PktLine.Codec.{
  Bytes, PktLine, data_line, flush, ok, encode_pkt_line, flush_pkt, hex4, parsed,
  parse_pkt_line_stream, concat_pkt_lines,
}
use just_git.PktLine.Stream.{parse_pkt_lines_from_stream}
use just_git.PktLine.RoundTrip.{DecodesAscii, parse-concat_pkt_lines}
use just_git.PktLine.Chunks.{outcome, parse_pkt_lines_from_stream-parse_pkt_line_stream}
use just_git.PktLine.Sideband.{completed, demux_sideband_streaming, sort_bands, demux_sideband}
use just_git.PktLine.Bands.{
  demux_sideband_streaming-completed, demux_sideband_streaming-error, before_bands, thrown,
  first_error,
}

-- A decoder of ASCII texts.
abbrev ascii : Bytes → Text
ascii bytes = bytes

ascii-DecodesAscii : DecodesAscii ascii
ascii-DecodesAscii bytes h = refl

-- "hi\n" and its line, "0007hi\n".
abbrev hi : Bytes
hi = 0x68 ∷ 0x69 ∷ 0xa ∷ []

abbrev hi_pkt : Bytes
hi_pkt = 0x30 ∷ 0x30 ∷ 0x30 ∷ 0x37 ∷ 0x68 ∷ 0x69 ∷ 0xa ∷ []

encode_hi : encode_pkt_line hi ≡ ok hi_pkt
unfolding encode_pkt_line hex4 hex_digit
encode_hi = refl

parse-concat_pkt_lines_example :
    parse_pkt_line_stream ascii (concat_pkt_lines (hi_pkt ∷ flush_pkt ∷ []))
    ≡ parsed (data_line hi ∷ flush ∷ [])
parse-concat_pkt_lines_example =
    parse-concat_pkt_lines ascii ascii-DecodesAscii (data_line hi ∷ flush ∷ [])
      (hi_pkt ∷ flush_pkt ∷ []) (encode_hi, (refl, tt))

-- The line cut within its length and within its payload.
parse_pkt_lines_from_stream_example :
    outcome (
      parse_pkt_lines_from_stream ascii
        ((0x30 ∷ 0x30 ∷ []) ∷ (0x30 ∷ 0x37 ∷ 0x68 ∷ []) ∷ (0x69 ∷ 0xa ∷ []) ∷ []))
    ≡ parse_pkt_line_stream ascii
        (concat_pkt_lines ((0x30 ∷ 0x30 ∷ []) ∷ (0x30 ∷ 0x37 ∷ 0x68 ∷ []) ∷ (0x69 ∷ 0xa ∷ []) ∷ []))
parse_pkt_lines_from_stream_example =
    parse_pkt_lines_from_stream-parse_pkt_line_stream ascii
      ((0x30 ∷ 0x30 ∷ []) ∷ (0x30 ∷ 0x37 ∷ 0x68 ∷ []) ∷ (0x69 ∷ 0xa ∷ []) ∷ [])

-- A preamble, pack data, progress and more pack data.
abbrev banded : List PktLine
banded =
    data_line (0x4e ∷ 0x41 ∷ 0x4b ∷ [])
    ∷ data_line (1 ∷ 0x50 ∷ [])
    ∷ data_line (2 ∷ 0x68 ∷ [])
    ∷ data_line (1 ∷ 0x41 ∷ [])
    ∷ flush
    ∷ []

no_errors : (demux_sideband ascii banded).errors ≡ []
unfolding demux_sideband sort_bands
no_errors = refl

demux_sideband_streaming-completed_example : demux_sideband_streaming ascii banded ≡ record {
  progress = (demux_sideband ascii banded).progress;
  result = completed (record {
    pack_data = (demux_sideband ascii banded).pack_data;
    preamble_lines = before_bands banded;
  });
}
demux_sideband_streaming-completed_example =
    demux_sideband_streaming-completed ascii banded no_errors

demux_sideband_streaming-error_example :
    thrown (demux_sideband_streaming ascii banded).result
    ≡ first_error (demux_sideband ascii banded).errors
demux_sideband_streaming-error_example = demux_sideband_streaming-error ascii banded
