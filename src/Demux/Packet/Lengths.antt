-- ===== src/Demux/Packet/Lengths.antt =====
-- src/tcpdemux.cpp: process_ip4 on a datagram whose header is cut off.
use tcpflow.Base.{
  ℕ, zero, suc, ◌+◌, ◌-◌, ◌*◌, ◌%◌, ◌≤◌, ◌<◌, ◌≡◌, refl, some, List, [], ◌∷◌, arith, length, drop,
}
use tcpflow.Base.Word.{u16, u64}
use tcpflow.Flow.{PacketInfo, IpAddr}
use tcpflow.Tcpip.State.{ReconSet}
use tcpflow.Demux.State.{Demux, Settings, undefined, stopped, monad}
use tcpflow.Demux.Segment.{byte, be16, read_bytes}
use tcpflow.Demux.Tcp.{process_tcp}
use tcpflow.Demux.Packet.{ip4_payload, process_ip4}

drop-all : (n : ℕ) (p : List ℕ) → length p ≤ n → drop n p ≡ []
drop-all zero [] h = refl
drop-all zero (x ∷ p) h = elim h [ ]
drop-all (suc n) [] h = refl
drop-all (suc n) (x ∷ p) h = drop-all n p (omega arith)

ip4_payload_short :
    (p : List ℕ) (off n : ℕ) → ip4_payload p ≡ some (off, n) → length p < off → 20 ≤ n
unfolding ip4_payload
ip4_payload_short p off n e short = ground arith

ip4_payload_whole :
    (p : List ℕ)
    → 20 ≤ length p
    → byte p 9 ≡ 6
    → be16 p 6 % 8192 ≡ 0
    → byte p 0 % 16 * 4 ≤ be16 p 2
    → ip4_payload p ≡ some (byte p 0 % 16 * 4, (length p + (u64 - byte p 0 % 16 * 4)) % u16)
unfolding ip4_payload
ip4_payload_whole p long tcp whole fits = ground (arith, long, tcp, whole, fits)

module _ {S : Type 0} (R : ReconSet S) (cfg : Settings) where
  process_tcp_nothing :
      (src dst : IpAddr) (family n : ℕ) (pi : PacketInfo) (d : Demux S)
      → 20 ≤ n
      → process_tcp R cfg src dst family [] n pi d ≡ stopped undefined
  unfolding process_tcp monad read_bytes
  process_tcp_nothing src dst family n pi d h = ground arith

  overrun_stops :
      (pi : PacketInfo) (d : Demux S) (off n : ℕ)
      → ip4_payload pi.payload ≡ some (off, n)
      → length pi.payload < off
      → process_ip4 R cfg pi d ≡ stopped undefined
  unfolding process_ip4
  overrun_stops pi d off n e short =
      rw (e, process_ip4, drop-all off pi.payload (omega arith))
        (process_tcp_nothing _ _ _ n pi d (ip4_payload_short pi.payload off n e short))

  -- An unfragmented TCP datagram, of which 20 bytes or more are captured, and whose header length is
  -- above the captured bytes and not above the stated total length, is not refused: its payload
  -- length wraps round, and the TCP header is read behind the capture.
  pub process_ip4_overrun :
      (pi : PacketInfo) (d : Demux S)
      → 20 ≤ length pi.payload
      → byte pi.payload 9 ≡ 6
      → be16 pi.payload 6 % 8192 ≡ 0
      → byte pi.payload 0 % 16 * 4 ≤ be16 pi.payload 2
      → length pi.payload < byte pi.payload 0 % 16 * 4
      → process_ip4 R cfg pi d ≡ stopped undefined
  process_ip4_overrun pi d long tcp whole fits short =
      let p = pi.payload in
      let off = byte p 0 % 16 * 4 in
      overrun_stops pi d off ((length p + (u64 - off)) % u16)
        (ip4_payload_whole p long tcp whole fits) short
