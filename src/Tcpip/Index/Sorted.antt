-- ===== src/Tcpip/Index/Sorted.antt =====
-- src/tcpip.cpp: what sort_index leaves in the index file.
use tcpflow.Base.{◌≡◌, refl, Bool, true, false, ◌&&◌, arith, if_either}
use tcpflow.Tcpip.State.{Tcpip, IndexLine, Options}
use tcpflow.Base.Sort.{Before, IsSorted, sort-IsSorted, count_if, count_if-sort}
use tcpflow.Tcpip.Index.{compare_lines, sort_index}

compare_lines-Before : Before compare_lines
unfolding compare_lines
compare_lines-Before = record { asym = λ a b h. ground arith; trans = λ a b c h k. ground arith }

module _ {S : Type 0} where
  -- With an open index file and the option for it, sort_index leaves the same lines, in the order of
  -- their offsets; without, it leaves the file as it is.
  pub index-sort_index :
      (opt : Options) (t : Tcpip S)
      → let t' = sort_index opt t in
        ((p : IndexLine → Bool) → count_if p t'.index ≡ count_if p t.index)
        × ((opt.output_packet_index && t.idx_open) ≡ true → IsSorted compare_lines t'.index)
        × ((opt.output_packet_index && t.idx_open) ≡ false → t'.index ≡ t.index)
  unfolding sort_index
  index-sort_index opt t =
      if_either
        (λ (u : Tcpip S).
          ((p : IndexLine → Bool) → count_if p u.index ≡ count_if p t.index)
          × ((opt.output_packet_index && t.idx_open) ≡ true → IsSorted compare_lines u.index)
          × ((opt.output_packet_index && t.idx_open) ≡ false → u.index ≡ t.index))
        (opt.output_packet_index && t.idx_open) _ _
        (λ e. (
          λ p. count_if-sort compare_lines p t.index,
          λ yes. sort-IsSorted compare_lines compare_lines-Before t.index,
          λ no. absurd cc,
        ))
        (λ e. (λ p. refl, λ yes. absurd cc, λ no. refl))
