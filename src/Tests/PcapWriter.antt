-- ===== src/Tests/PcapWriter.antt =====
-- A capture of one packet of three bytes.
use tcpflow.PcapWriter.RoundTrip.{read_packets-write_packets}
use tcpflow.PcapWriter.Reader.{read_packets, read_header}
use tcpflow.Base.{ℕ, ◌≡◌, refl, false, some, List, [], ◌∷◌, arith, length}
use tcpflow.PcapWriter.{write_bytes, write_all, PacketHeader, writepkt, write_header, write_packets}

abbrev accepts_all : List ℕ → List ℕ → ℕ
accepts_all content bytes = length bytes

abbrev one_packet : List (PacketHeader × List ℕ)
one_packet =
    (record { ts = record { sec = 1400000000; usec = 25 }; caplen = 3; len = 60 }, 1 ∷ 2 ∷ 3 ∷ [])
    ∷ []

one_packet_bytes : length (write_packets accepts_all one_packet []).content ≡ 19
unfolding write_packets writepkt write_all write_bytes
one_packet_bytes = refl

read_packets-write_packets_example :
    let opened = write_header accepts_all 1 [] in
    let out = write_packets accepts_all one_packet opened.content in
    (opened.thrown ≡ false)
    × (out.thrown ≡ false)
    × ((rest : List ℕ) × (read_header out.content ≡ some (1, rest))
        × (read_packets 1 rest ≡ some one_packet))
read_packets-write_packets_example =
    read_packets-write_packets accepts_all 1 1 one_packet (λ content bytes. refl) (omega arith)
      (
        record {
          sec = omega arith;
          usec = omega arith;
          caplen = omega arith;
          len = omega arith;
          captured = refl;
        },
        tt,
      )
      (omega arith)
