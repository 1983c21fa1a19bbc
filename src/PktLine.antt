-- ===== src/PktLine.antt =====
-- src/lib/transport/pkt-line.ts: the wire framing of git's smart transport. Codec has the encoder and
-- the parser of a whole buffer, Stream the incremental parser, Sideband the demultiplexers. The
-- proofs are in RoundTrip, Chunks and Bands.
pub mod Codec
pub mod Stream
pub mod Sideband
pub mod RoundTrip
pub mod Chunks
pub mod Bands
mod Examples
