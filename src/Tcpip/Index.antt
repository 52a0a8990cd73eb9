-- ===== src/Tcpip/Index.antt =====
-- src/tcpip.cpp: sort_index, which no other code calls. A line of the index file begins with its
-- offset, which is what the comparison reads of it.
pub mod Sorted
use tcpflow.Base.{
  ℕ, zero, suc, ◌+◌, ◌-◌, ◌*◌, ◌/◌, ◌%◌, ◌^◌, ◌≤◌, ◌<◌, min, max, ◌≡◌, refl, sym, ap, ap₂, subst,
  ◌∙◌, fun_ext, ◌≢◌, ◌↔◌, ◌⊎◌, inl, inr, Bool, true, false, not, ◌&&◌, ◌||◌, Option, none, some,
  List, [], ◌∷◌, ◌++◌, map, append_assoc, append-nil, arith, dec_lt, dec_le, ℕ_discrete, length,
  get_elem?, set, length-append, length-set, get_elem?-set_self, get_elem?-set_ne, get_or, take,
  drop, replicate, take-append-drop, length-take, length-drop, length-replicate, length-map, ltb,
  leb, ◌==◌, if◌then◌else◌, ltb→lt, lt→ltb, leb→le, ==_iff, tests, Bool-cases, Option-cases,
  if_either, All, All-map, All-append,
}
use tcpflow.Tcpip.State.{Tcpip, IndexLine, Options}
use tcpflow.Base.Sort.{sort}

-- `tcpip::compare`.
unfoldable pub compare_lines : IndexLine → IndexLine → Bool
compare_lines a b = ltb a.at b.at

-- `sort_index` of the object's own file, where no read or write of an open file fails: the lines
-- are read from the start, sorted, and written over the old ones.
unfoldable pub sort_index : {S : Type 0} → Options → Tcpip S → Tcpip S
unfolding compare_lines
sort_index opt t =
    if opt.output_packet_index && t.idx_open
    then record t { index = sort compare_lines t.index }
    else t
