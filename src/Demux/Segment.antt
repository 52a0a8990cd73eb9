-- ===== src/Demux/Segment.antt =====
-- The TCP and IP headers that the demultiplexer reads from the captured bytes.
use tcpflow.Base.{
  ℕ, ◌+◌, ◌*◌, ◌/◌, ◌%◌, Bool, Option, none, some, List, length, get_or, take, drop, leb, ◌==◌,
  if◌then◌else◌,
}

-- A byte of the capture; a read past its end is undefined and never reached below the length tests.
abbrev pub byte : List ℕ → ℕ → ℕ
byte p i = get_or p i 0

-- `ntohs` and `ntohl`.
abbrev pub be16 : List ℕ → ℕ → ℕ
be16 p i = byte p i * 256 + byte p (i + 1)

abbrev pub be32 : List ℕ → ℕ → ℕ
be32 p i = be16 p i * 65536 + be16 p (i + 2)

pub record TcpHeader : Type 0 where
  pub sport : ℕ
  pub dport : ℕ
  pub seq : ℕ
  pub header_len : ℕ
  pub syn : Bool
  pub ack : Bool
  pub fin : Bool
  pub rst : Bool

-- `FLAG_SET`, of a flag that is a power of two.
abbrev pub flag_set : ℕ → ℕ → Bool
flag_set flags flag = flags / flag % 2 == 1

abbrev pub tcphdr_size : ℕ
tcphdr_size = 20

unfoldable pub tcp_header : List ℕ → TcpHeader
tcp_header p = record {
  sport = be16 p 0;
  dport = be16 p 2;
  seq = be32 p 4;
  header_len = byte p 12 / 16 * 4;
  syn = flag_set (byte p 13) 2;
  ack = flag_set (byte p 13) 16;
  fin = flag_set (byte p 13) 1;
  rst = flag_set (byte p 13) 4;
}

-- `n` bytes of the capture from `off` on; `none` where they are not all captured.
unfoldable pub read_bytes : List ℕ → ℕ → ℕ → Option (List ℕ)
read_bytes p off n = if leb (off + n) (length p) then some (take n (drop off p)) else none
