-- ===== src/Tests/Datalink.antt =====
-- Frames of each kind.
use tcpflow.Base.{
  ℕ, ◌+◌, ◌-◌, ◌*◌, ◌%◌, ◌≤◌, ◌<◌, ◌≡◌, refl, ◌≢◌, false, none, some, List, [], ◌∷◌, ◌++◌, arith,
  take, replicate,
}
use tcpflow.Demux.Segment.{byte, be16}
use tcpflow.Datalink.{packet, overread, dropped, dl_ethernet, dl_linux_sll, find_handler, Handler}
use tcpflow.Datalink.Ethernet.{Tag, tagged, dl_ethernet-tagged, dl_ethernet_cut_off}
use tcpflow.Datalink.Cooked.{dl_linux_sll_stack}

abbrev addresses : List ℕ
addresses = replicate 12 2

-- VLAN 5.
abbrev tag : Tag
tag = record { type_high = 129; type_low = 0; tci_high = 0; tci_low = 5 }

dl_ethernet-tagged_example :
    dl_ethernet (addresses ++ tagged (tag ∷ tag ∷ []) (8 ∷ 0 ∷ 69 ∷ 1 ∷ [])) ≡ packet (4 * 2 + 14) 2
dl_ethernet-tagged_example =
    dl_ethernet-tagged addresses (69 ∷ 1 ∷ []) (tag ∷ tag ∷ []) 8 0 refl (refl, (refl, tt)) refl

dl_ethernet_cut_off_example : dl_ethernet (replicate 13 8) ≡ overread
dl_ethernet_cut_off_example = dl_ethernet_cut_off (replicate 13 8) (omega arith) (omega arith)

-- A cooked frame with two MPLS labels.
abbrev labelled : List ℕ
labelled = replicate 14 0 ++ 136 ∷ 71 ∷ 0 ∷ 1 ∷ 0 ∷ 64 ∷ 0 ∷ 2 ∷ 1 ∷ 64 ∷ 69 ∷ 0 ∷ 0 ∷ 20 ∷ 7 ∷ []

labelled_test : dl_linux_sll labelled ≡ packet 24 5
unfolding dl_linux_sll
labelled_test = refl

dl_linux_sll_stack_example :
    (be16 labelled 14 ≢ 34887 → dl_linux_sll labelled ≡ packet 16 13)
    × (be16 labelled 14 ≡ 34887
        → (n : ℕ) → ((i : ℕ) → i < n → byte labelled (18 + 4 * i) % 2 ≡ 0)
        → (29 < 20 + 8 * n → dl_linux_sll labelled ≡ dropped)
          × (20 + 8 * n ≤ 29
              → byte labelled (18 + 4 * n) % 2 ≡ 1
              → dl_linux_sll labelled ≡ packet (20 + 4 * n) (29 - (20 + 4 * n))))
dl_linux_sll_stack_example = dl_linux_sll_stack labelled (omega arith)

-- Three bytes behind both labels, and the frame is dropped.
labelled_short : dl_linux_sll (take 27 labelled) ≡ dropped
unfolding dl_linux_sll
labelled_short = refl

find_handler_test : (find_handler false 101 ≡ some Handler.raw) × (find_handler false 105 ≡ none)
unfolding find_handler
find_handler_test = (refl, refl)
