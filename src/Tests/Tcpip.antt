-- ===== src/Tests/Tcpip.antt =====
-- Segments of a stream through the reassembly.
use tcpflow.Base.{
  ℕ, ◌+◌, ◌≡◌, refl, true, List, [], ◌∷◌, arith, get_elem?, replicate, length-replicate,
}
use tcpflow.Base.Int.{pos, negsuc}
use tcpflow.Tcpip.File.{OpenFile, write_at, write, seek_cur}
use tcpflow.Tcpip.Shift.{
  shift_file_front, shift_file, shift_file_fits, shift_file_done, shift_file_front,
}
use tcpflow.Tcpip.State.{update_seen}
use tcpflow.Tcpip.Store.{
  limit_length, place, open_up, is_keepalive, move_by, write_packet, store_placed, store_packet,
  sequence_delta,
}
use tcpflow.Tcpip.Store.Sequence.{InStep, store_packet-InStep}
use tcpflow.Tcpip.Store.Stream.{Segment, Agrees, Covered, Within}
use tcpflow.Tcpip.Store.Reassembly.{receive, receive_all, receive_all-Agrees}
use tcpflow.Tests.Examples.{recon_list, noon, options, fresh_flow, empty_file}

-- Four bytes at 2 before four bytes at 0, then four at 5.
abbrev segments : List Segment
segments = record { at = 2; len = 4 } ∷ record { at = 0; len = 4 } ∷ record { at = 5; len = 4 } ∷ []

abbrev stream : ℕ → ℕ
stream i = 65 + i

receive_all_run :
    (receive_all recon_list options noon stream 4294967293 segments
      (fresh_flow, empty_file)).1.bytes
    ≡ 65 ∷ 66 ∷ 67 ∷ 68 ∷ 69 ∷ 70 ∷ 71 ∷ 72 ∷ 73 ∷ []
unfolding receive_all receive store_packet store_placed place limit_length open_up is_keepalive
    move_by write_packet sequence_delta write_at write seek_cur update_seen
receive_all_run = refl

fresh-InStep : InStep fresh_flow empty_file
fresh-InStep = record { sequence = refl; position = refl }

receive_all-Agrees_example :
    let (t', o') =
      receive_all recon_list options noon stream 4294967293 segments (fresh_flow, empty_file) in
    InStep t' o'
    × ((i : ℕ) → Agrees stream [] i → Agrees stream o'.bytes i)
    × ((i : ℕ) → Within (negsuc 0) i → Covered i segments → Agrees stream o'.bytes i)
receive_all-Agrees_example =
    receive_all-Agrees recon_list options noon stream 4294967293 segments fresh_flow empty_file
      fresh-InStep refl (omega arith) (omega arith) (λ i e w. absurd (omega arith))

store_packet-InStep_example :
    let (t', o') =
      store_packet recon_list options noon (1 ∷ 2 ∷ []) (pos 3) fresh_flow empty_file in
    InStep t' o'
store_packet-InStep_example =
    store_packet-InStep recon_list options noon (1 ∷ 2 ∷ []) (pos 3) fresh_flow empty_file
      fresh-InStep (omega arith) (omega arith) (omega arith)

abbrev three : OpenFile
three = record { bytes = 7 ∷ 8 ∷ 9 ∷ []; offset = 0 }

shift_file_fits_example : (shift_file 2 three).0.bytes ≡ write_at 2 three.bytes three.bytes
shift_file_fits_example = shift_file_fits 2 three (omega arith)

shift_file_done_example : (shift_file 2 three).1 ≡ true
shift_file_done_example = shift_file_done 2 three

-- A file of 65538 bytes: the byte at 2 stays.
abbrev long : OpenFile
long = record { bytes = replicate 65538 7; offset = 0 }

shift_file_front_example : get_elem? (shift_file 2 long).0.bytes 2 ≡ get_elem? (replicate 65538 7) 2
shift_file_front_example =
    shift_file_front 2 2 long (omega (arith, length-replicate {A = ℕ} 65538 7))
      (omega (arith, length-replicate {A = ℕ} 65538 7))
