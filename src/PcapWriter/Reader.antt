-- ===== src/PcapWriter/Reader.antt =====
-- src/pcap_writer.h: a reader of capture files, by the format.
use tcpflow.Base.{ℕ, zero, suc, ◌+◌, ◌*◌, Option, none, some, List, [], ◌∷◌, ◌==◌, if◌then◌else◌}
use tcpflow.PcapWriter.{PacketHeader, magic}

-- What was read, and what follows it.
abbrev pub Read {ℓ} : Type ℓ → Type ℓ
Read A = Option (A × List ℕ)

abbrev pub and_then {ℓ κ} : {A : Type ℓ} {B : Type κ} → Read A → (A → List ℕ → Read B) → Read B
and_then none k = none
and_then (some (a, rest)) k = k a rest

abbrev pub read_word : (size : ℕ) → List ℕ → Read ℕ
read_word zero l = some (0, l)
read_word (suc size) [] = none
read_word (suc size) (b ∷ l) = and_then (read_word size l) (λ n rest. some (b + 256 * n, rest))

abbrev pub read_bytes : (n : ℕ) → List ℕ → Read (List ℕ)
read_bytes zero l = some ([], l)
read_bytes (suc n) [] = none
read_bytes (suc n) (b ∷ l) = and_then (read_bytes n l) (λ p rest. some (b ∷ p, rest))

abbrev pub prepend {ℓ} : {A : Type ℓ} → A → Option (List A) → Option (List A)
prepend p none = none
prepend p (some ps) = some (p ∷ ps)

-- A record: four words, and as many bytes as the third says.
unfoldable pub read_packet : List ℕ → Read (PacketHeader × List ℕ)
read_packet l = and_then (read_word 4 l) (λ sec l1. and_then (read_word 4 l1) (λ usec l2.
    and_then (read_word 4 l2) (λ caplen l3. and_then (read_word 4 l3) (λ len l4.
      and_then (read_bytes caplen l4) (λ packet rest. some (
        (record { ts = record { sec = sec; usec = usec }; caplen = caplen; len = len }, packet),
        rest,
      ))))))

-- As many records as there are, up to the fuel.
unfoldable pub read_packets : ℕ → List ℕ → Option (List (PacketHeader × List ℕ))
unfolding read_packet
read_packets fuel [] = some []
read_packets zero (b ∷ l) = none
read_packets (suc fuel) (b ∷ l) = elim (read_packet (b ∷ l)) [
  | none ↦ none
  | some (p, rest) ↦ prepend p (read_packets fuel rest)
]

-- The header of the file: the magic number, the version, three words, and the kind of link.
unfoldable pub read_header : List ℕ → Read ℕ
read_header l = and_then (read_word 4 l) (λ number l1.
    and_then (read_bytes 16 l1) (λ fields l2. if number == magic then read_word 4 l2 else none))
