-- ===== src/PcapWriter.antt =====
-- src/pcap_writer.h: capture files. fwrite is a parameter: how many of the bytes it accepts, given
-- what the file holds. Integers are written as they lie in memory, least significant byte first.
pub mod Reader
pub mod RoundTrip
use tcpflow.Base.{
  ℕ, zero, suc, ◌+◌, ◌-◌, ◌*◌, ◌/◌, ◌%◌, ◌^◌, ◌≤◌, ◌<◌, min, max, ◌≡◌, refl, sym, ap, ap₂, subst,
  ◌∙◌, fun_ext, ◌≢◌, ◌↔◌, ◌⊎◌, inl, inr, Bool, true, false, not, ◌&&◌, ◌||◌, Option, none, some,
  List, [], ◌∷◌, ◌++◌, map, append_assoc, append-nil, arith, dec_lt, dec_le, ℕ_discrete, length,
  get_elem?, set, length-append, length-set, get_elem?-set_self, get_elem?-set_ne, get_or, take,
  drop, replicate, take-append-drop, length-take, length-drop, length-replicate, length-map, ltb,
  leb, ◌==◌, if◌then◌else◌, ltb→lt, lt→ltb, leb→le, ==_iff, tests, Bool-cases, Option-cases,
  if_either, All, All-map, All-append,
}
use tcpflow.Base.Word.{u32}
use tcpflow.Flow.{TimeVal}

-- `pcap_pkthdr`.
pub record PacketHeader : Type 0 where
  pub ts : TimeVal
  pub caplen : ℕ
  pub len : ℕ

-- What a call leaves in the file, and whether it threw a write error.
pub record Outcome : Type 0 where
  pub content : List ℕ
  pub thrown : Bool

-- The bytes of a word.
abbrev pub bytes_of : (size n : ℕ) → List ℕ
bytes_of zero n = []
bytes_of (suc size) n = n % 256 ∷ bytes_of size (n / 256)

abbrev pub magic : ℕ
magic = 2712847316

abbrev pub max_pkt_len : ℕ
max_pkt_len = 65535

abbrev pub header_size : ℕ
header_size = 24

module _ (accepts : (content bytes : List ℕ) → ℕ) where
  -- `write_bytes`, `write2` and `write4`: an error when not every byte was accepted.
  unfoldable pub write_bytes : List ℕ → List ℕ → Outcome
  write_bytes bytes content =
      let count = accepts content bytes in
      record { content = content ++ take count bytes; thrown = not (count == length bytes) }

  -- One write after the others; an error ends the sequence.
  unfoldable pub write_all : List (List ℕ) → List ℕ → Outcome
  unfolding write_bytes
  write_all [] content = record { content = content; thrown = false }
  write_all (bytes ∷ more) content =
      let first = write_bytes bytes content in
      let rest = write_all more first.content in if first.thrown then first else rest

  -- `write_header`.
  unfoldable pub write_header : (dlt : ℕ) → List ℕ → Outcome
  unfolding write_all
  write_header dlt = write_all (
      bytes_of 4 magic
      ∷ bytes_of 2 2
      ∷ bytes_of 2 4
      ∷ bytes_of 4 0
      ∷ bytes_of 4 0
      ∷ bytes_of 4 max_pkt_len
      ∷ bytes_of 4 dlt
      ∷ [])

  -- `copy_header` of a file that could be opened: it has to begin with the magic number in the
  -- order of this machine.
  unfoldable pub copy_header : (source : List ℕ) → List ℕ → Outcome
  unfolding write_bytes
  copy_header source content =
      let buf = take header_size source in
      let right_order =
        get_or buf 0 0 == 212
        && (get_or buf 1 0 == 195 && (get_or buf 2 0 == 178 && get_or buf 3 0 == 161)) in
      if not (length buf == header_size) || not right_order
      then record { content = content; thrown = true }
      else write_bytes buf content

  -- `writepkt`: the header, and the first `caplen` bytes of the packet.
  unfoldable pub writepkt : PacketHeader → (packet : List ℕ) → List ℕ → Outcome
  unfolding write_all
  writepkt h packet = write_all (
      bytes_of 4 h.ts.sec
      ∷ bytes_of 4 h.ts.usec
      ∷ bytes_of 4 h.caplen
      ∷ bytes_of 4 h.len
      ∷ take h.caplen packet
      ∷ [])

  -- The packets of a capture, one after the other.
  unfoldable pub write_packets : List (PacketHeader × List ℕ) → List ℕ → Outcome
  unfolding writepkt
  write_packets [] content = record { content = content; thrown = false }
  write_packets ((h, packet) ∷ more) content =
      let first = writepkt h packet content in
      let rest = write_packets more first.content in if first.thrown then first else rest
