-- ===== src/PcapWriter/RoundTrip.antt =====
-- src/pcap_writer.h: what is written can be read.
use tcpflow.Base.{
  ℕ, zero, suc, ◌+◌, ◌*◌, ◌/◌, ◌%◌, ◌≤◌, ◌<◌, ◌≡◌, refl, sym, ap, ◌∙◌, false, Option, none, some,
  List, [], ◌∷◌, ◌++◌, append_assoc, append-nil, arith, length, take, if_either, All,
}
use tcpflow.Base.Word.{u32}
use tcpflow.PcapWriter.{
  PacketHeader, Outcome, bytes_of, write_bytes, write_all, write_header, writepkt, write_packets,
  magic, max_pkt_len,
}
use tcpflow.PcapWriter.Reader.{
  prepend, Read, and_then, read_bytes, read_packet, read_packets, read_header,
}

abbrev joined : List (List ℕ) → List ℕ
joined [] = []
joined (b ∷ l) = b ++ joined l

take_all : (l : List ℕ) (n : ℕ) → n ≡ length l → take n l ≡ l
take_all [] zero e = refl
take_all [] (suc n) e = refl
take_all (x ∷ l) zero e = absurd (omega (arith, e))
take_all (x ∷ l) (suc n) e = ap (◌∷◌ x) (take_all l n (omega (arith, e)))

-- The four bytes of a word, put together again.
abbrev word4 : ℕ → ℕ
word4 n =
    n % 256
    + 256
      * (n / 256 % 256 + 256 * (n / 256 / 256 % 256 + 256 * (n / 256 / 256 / 256 % 256 + 256 * 0)))

word4_same : (n : ℕ) → n < u32 → word4 n ≡ n
word4_same n h = omega arith

read_bytes-append :
    (p rest : List ℕ) (n : ℕ) → n ≡ length p → read_bytes n (p ++ rest) ≡ some (p, rest)
read_bytes-append [] rest zero e = refl
read_bytes-append [] rest (suc n) e = absurd (omega (arith, e))
read_bytes-append (b ∷ p) rest zero e = absurd (omega (arith, e))
read_bytes-append (b ∷ p) rest (suc n) e =
    ap (λ o. and_then o (λ q after. some (b ∷ q, after)))
      (read_bytes-append p rest n (omega (arith, e)))

-- The words of a header fit, and the packet has the captured length.
pub record IsPacket (h : PacketHeader) (packet : List ℕ) : Type 0 where
  pub sec : h.ts.sec < u32
  pub usec : h.ts.usec < u32
  pub caplen : h.caplen < u32
  pub len : h.len < u32
  pub captured : h.caplen ≡ length packet

abbrev pub ArePackets : List (PacketHeader × List ℕ) → Type 0
ArePackets = All (λ p. IsPacket p.0 p.1)

-- The bytes of a record.
abbrev packet_bytes : PacketHeader × List ℕ → List ℕ
packet_bytes (h, packet) =
    bytes_of 4 h.ts.sec
    ++ (bytes_of 4 h.ts.usec ++ (bytes_of 4 h.caplen ++ (bytes_of 4 h.len ++ packet)))

-- The bytes of several records.
abbrev pub all_bytes : List (PacketHeader × List ℕ) → List ℕ
all_bytes [] = []
all_bytes (p ∷ ps) = packet_bytes p ++ all_bytes ps

read_packet_bytes :
    (h : PacketHeader) (packet rest : List ℕ)
    → IsPacket h packet
    → read_packet (packet_bytes (h, packet) ++ rest) ≡ some ((h, packet), rest)
unfolding read_packet
read_packet_bytes h packet rest v =
    let read : ℕ → ℕ → ℕ → ℕ → Read (PacketHeader × List ℕ) = λ sec usec caplen len.
      and_then (read_bytes caplen (packet ++ rest)) (λ p after. some (
        (record { ts = record { sec = sec; usec = usec }; caplen = caplen; len = len }, p),
        after,
      )) in
    ap (λ n. read n (word4 h.ts.usec) (word4 h.caplen) (word4 h.len)) (word4_same h.ts.sec v.sec)
    ∙ ap (λ n. read h.ts.sec n (word4 h.caplen) (word4 h.len)) (word4_same h.ts.usec v.usec)
    ∙ ap (λ n. read h.ts.sec h.ts.usec n (word4 h.len)) (word4_same h.caplen v.caplen)
    ∙ ap (read h.ts.sec h.ts.usec h.caplen) (word4_same h.len v.len)
    ∙ ap (λ o. and_then o (λ p after. some ((h, p), after)))
        (read_bytes-append packet rest h.caplen v.captured)

module _ (accepts : (content bytes : List ℕ) → ℕ)
    (all : (content bytes : List ℕ) → accepts content bytes ≡ length bytes) where
  -- What a call that threw nothing added.
  abbrev Added : Outcome → (content bytes : List ℕ) → Type 0
  Added out content bytes = (out.content ≡ content ++ bytes) × (out.thrown ≡ false)

  write_bytes_accepted :
      (bytes content : List ℕ) → Added (write_bytes accepts bytes content) content bytes
  unfolding write_bytes
  write_bytes_accepted bytes content = (
    ap (λ l. content ++ l) (take_all bytes (accepts content bytes) (all content bytes)),
    ground (arith, all content bytes),
  )

  write_all_accepted :
      (pieces : List (List ℕ)) (content : List ℕ)
      → Added (write_all accepts pieces content) content (joined pieces)
  unfolding write_all
  write_all_accepted [] content = (sym (append-nil content), refl)
  write_all_accepted (b ∷ pieces) content =
      let first = write_bytes_accepted b content in
      let rest = write_all_accepted pieces (write_bytes accepts b content).content in
      if_either (λ o. Added o content (joined (b ∷ pieces))) (write_bytes accepts b content).thrown
        _ _ (λ e. absurd cc)
        (λ e. (
          rest.0 ∙ ap (λ l. l ++ joined pieces) first.0 ∙ append_assoc content b (joined pieces),
          rest.1,
        ))

  writepkt_accepted :
      (h : PacketHeader) (packet content : List ℕ)
      → IsPacket h packet
      → Added (writepkt accepts h packet content) content (packet_bytes (h, packet))
  unfolding writepkt
  writepkt_accepted h packet content v =
      let words = λ (l : List ℕ).
        bytes_of 4 h.ts.sec
        ++ (bytes_of 4 h.ts.usec ++ (bytes_of 4 h.caplen ++ (bytes_of 4 h.len ++ l))) in
      let r =
        write_all_accepted
          (bytes_of 4 h.ts.sec
            ∷ bytes_of 4 h.ts.usec
            ∷ bytes_of 4 h.caplen
            ∷ bytes_of 4 h.len
            ∷ take h.caplen packet
            ∷ [])
          content in
      let kept = append-nil (take h.caplen packet) ∙ take_all packet h.caplen v.captured in
      (r.0 ∙ ap (λ l. content ++ words l) kept, r.1)

  write_packets_accepted :
      (ps : List (PacketHeader × List ℕ)) (content : List ℕ)
      → ArePackets ps
      → Added (write_packets accepts ps content) content (all_bytes ps)
  unfolding write_packets
  write_packets_accepted [] content v = (sym (append-nil content), refl)
  write_packets_accepted ((h, packet) ∷ ps) content v =
      let first = writepkt_accepted h packet content v.0 in
      let out = writepkt accepts h packet content in
      let rest = write_packets_accepted ps out.content v.1 in
      if_either (λ o. Added o content (all_bytes ((h, packet) ∷ ps))) out.thrown _ _
        (λ e. absurd cc)
        (λ e. (
          rest.0
              ∙ ap (λ l. l ++ all_bytes ps) first.0
              ∙ append_assoc content (packet_bytes (h, packet)) (all_bytes ps),
          rest.1,
        ))

read_packets-all_bytes :
    (fuel : ℕ) (ps : List (PacketHeader × List ℕ))
    → length ps ≤ fuel
    → ArePackets ps
    → read_packets fuel (all_bytes ps) ≡ some ps
unfolding read_packets
read_packets-all_bytes fuel [] h v = refl
read_packets-all_bytes zero (p ∷ ps) h v = absurd (omega (arith, h))
read_packets-all_bytes (suc fuel) ((hd, packet) ∷ ps) h v =
    let one = read_packet_bytes hd packet (all_bytes ps) v.0 in
    let more = read_packets-all_bytes fuel ps (omega (arith, h)) v.1 in
    let go : Read (PacketHeader × List ℕ) → Option (List (PacketHeader × List ℕ)) =
      λ o. elim o [ none ↦ none | some (p, rest) ↦ prepend p (read_packets fuel rest) ] in
    ap go one ∙ ap (prepend (hd, packet)) more

-- A capture that is written to a file that accepts every byte throws no error, and what is in the
-- file reads back as the kind of link and the same packets. The words of the headers fit, each
-- packet has its captured length, and the fuel of the reader is the number of packets at least.
pub read_packets-write_packets :
    (accepts : (content bytes : List ℕ) → ℕ) (dlt fuel : ℕ) (ps : List (PacketHeader × List ℕ))
    → ((content bytes : List ℕ) → accepts content bytes ≡ length bytes)
    → dlt < u32
    → ArePackets ps
    → length ps ≤ fuel
    → let opened = write_header accepts dlt [] in
      let out = write_packets accepts ps opened.content in
      (opened.thrown ≡ false)
      × (out.thrown ≡ false)
      × ((rest : List ℕ) × (read_header out.content ≡ some (dlt, rest))
          × (read_packets fuel rest ≡ some ps))
unfolding write_header read_header
read_packets-write_packets accepts dlt fuel ps all small v enough =
    let opened = write_header accepts dlt [] in
    let h =
      write_all_accepted accepts all
        (bytes_of 4 magic
          ∷ bytes_of 2 2
          ∷ bytes_of 2 4
          ∷ bytes_of 4 0
          ∷ bytes_of 4 0
          ∷ bytes_of 4 max_pkt_len
          ∷ bytes_of 4 dlt
          ∷ [])
        [] in
    let w = write_packets_accepted accepts all ps opened.content v in
    (
      h.1,
      w.1,
      (
        all_bytes ps,
        ap read_header (w.0 ∙ ap (λ l. l ++ all_bytes ps) h.0)
            ∙ ap (λ n. some (n, all_bytes ps)) (word4_same dlt small),
        read_packets-all_bytes fuel ps enough v,
      ),
    )
