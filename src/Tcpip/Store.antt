-- ===== src/Tcpip/Store.antt =====
-- src/tcpip.cpp: `tcpip::store_packet`, in the order of its steps. The steps act on the flow and
-- on the open description of its transcript file.
pub mod Sequence
pub mod Stream
pub mod Reassembly
use tcpflow.Base.{
  ℕ, zero, suc, ◌+◌, ◌-◌, ◌*◌, ◌/◌, ◌%◌, ◌^◌, ◌≤◌, ◌<◌, min, max, ◌≡◌, refl, sym, ap, ap₂, subst,
  ◌∙◌, fun_ext, ◌≢◌, ◌↔◌, ◌⊎◌, inl, inr, Bool, true, false, not, ◌&&◌, ◌||◌, Option, none, some,
  List, [], ◌∷◌, ◌++◌, map, append_assoc, append-nil, arith, dec_lt, dec_le, ℕ_discrete, length,
  get_elem?, set, length-append, length-set, get_elem?-set_self, get_elem?-set_ne, get_or, take,
  drop, replicate, take-append-drop, length-take, length-drop, length-replicate, length-map, ltb,
  leb, ◌==◌, if◌then◌else◌, ltb→lt, lt→ltb, leb→le, ==_iff, tests, Bool-cases, Option-cases,
}
use tcpflow.Base.Int.{ℤ, pos, negsuc}
use tcpflow.Base.Word.{u32, u64, add32, sub32, add64, word32, word64, signed32}
use tcpflow.Flow.{TimeVal}
use tcpflow.Tcpip.File.{OpenFile, write, seek_set, seek_cur}
use tcpflow.Tcpip.Shift.{shift_file}
use tcpflow.Tcpip.State.{Options, ReconSet, IndexLine, Tcpip, update_seen}

-- Where the bytes of a packet go: how much room to open at the start of the file, at which offset
-- to write, and how many bytes of the packet.
pub record Placement : Type 0 where
  pub insert_bytes : ℕ
  pub offset : ℕ
  pub wlength : ℕ

-- The limit of bytes per flow; a negative one is none.
unfoldable pub limit_length : ℤ → (offset length : ℕ) → ℕ
limit_length (negsuc _) offset length = length
limit_length (pos max_bytes) offset length =
    if leb max_bytes offset
    then 0
    else if ltb max_bytes (add64 offset length)
    then (max_bytes - offset) % u32
    else length

-- int32_t tests.
abbrev pub is_negative : ℤ → Bool
is_negative (pos n) = false
is_negative (negsuc n) = true

abbrev pub is_minus_one : ℤ → Bool
is_minus_one (pos n) = false
is_minus_one (negsuc n) = n == 0

-- `none` is the early return for bytes before the start of a connection whose SYN was seen.
unfoldable pub place : {S : Type 0} → ℤ → Tcpip S → (length : ℕ) → ℤ → Option Placement
unfolding limit_length
place max_bytes t length delta =
    let offset = (t.pos + word64 delta) % u64 in
    if leb (2 ^ 63) offset
    then (if ltb 0 t.syn_count
        then none
        else some (record {
          insert_bytes = (u64 - offset) % u32;
          offset = 0;
          wlength = limit_length max_bytes 0 length;
        }))
    else some (record {
      insert_bytes = 0;
      offset = offset;
      wlength = limit_length max_bytes offset length;
    })

-- The early return counts a violation.
unfoldable pub refuse : {S : Type 0} → Tcpip S → Tcpip S
refuse t = record t { violations = add64 t.violations 1 }

-- The file is shifted and the flow begins earlier.
unfoldable pub open_up : {S : Type 0} → ℕ → Tcpip S → OpenFile → Tcpip S × OpenFile
open_up insert_bytes t o =
    if ltb 0 insert_bytes
    then (
      record t {
        isn = sub32 t.isn insert_bytes;
        pos = 0;
        nsn = add32 (sub32 t.isn insert_bytes) 1;
        out_of_order_count = add64 t.out_of_order_count 1;
        seen = none;
      },
      seek_set 0 (shift_file insert_bytes o).0,
    )
    else (t, o)

-- A keepalive is one byte just before the position.
unfoldable pub is_keepalive : (length : ℕ) → ℤ → Bool
is_keepalive length delta = is_minus_one delta && length == 1

-- The seek to the packet's place.
unfoldable pub move_by : {S : Type 0} → ℤ → Tcpip S → OpenFile → Tcpip S × OpenFile
move_by delta t o = (
  record t {
    out_of_order_count =
        if is_negative delta then add64 t.out_of_order_count 1 else t.out_of_order_count;
    pos = (t.pos + word64 delta) % u64;
    nsn = add32 t.nsn (word32 delta);
  },
  seek_cur delta o,
)

module _ {S : Type 0} (R : ReconSet S) where
  -- The write, the line of the index file, the seek over what is not written, and the counters.
  unfoldable pub write_packet :
      Options → TimeVal → (offset wlength : ℕ) → List ℕ → Tcpip S → OpenFile → Tcpip S × OpenFile
  unfolding write seek_cur update_seen
  write_packet opt ts offset wlength payload t o =
      let n = length payload in
      let line : IndexLine = record { at = offset; ts = ts; written = wlength } in
      let end = add64 t.pos n in
      let written = write (take wlength payload) o in
      (
        record t {
          index = if opt.output_packet_index && t.idx_open then t.index ++ line ∷ [] else t.index;
          seen = update_seen R t.pos n t.seen;
          pos = end;
          nsn = add32 t.nsn n;
          last_byte = if ltb t.last_byte end then end else t.last_byte;
        },
        if wlength == n then written else seek_cur (pos (sub32 n wlength)) written,
      )

  -- All that follows the opening of the file.
  unfoldable pub store_placed :
      Options → TimeVal → Placement → List ℕ → ℤ → Tcpip S → OpenFile → Tcpip S × OpenFile
  store_placed opt ts p payload delta t o =
      let (t', o') = open_up p.insert_bytes t o in
      let (u, q) = move_by delta t' o' in
      if p.offset == t'.pos
      then write_packet opt ts p.offset p.wlength payload t' o'
      else if is_keepalive (length payload) delta
      then (t', o')
      else write_packet opt ts p.offset p.wlength payload u q

  -- The whole function for a flow whose transcript file is open.
  unfoldable pub store_packet :
      Options → TimeVal → List ℕ → ℤ → Tcpip S → OpenFile → Tcpip S × OpenFile
  store_packet opt ts payload delta t o =
      if length payload == 0
      then (t, o)
      else elim (place opt.max_bytes_per_flow t (length payload) delta) [
        | none ↦ (refuse t, o)
        | some p ↦ store_placed opt ts p payload delta t o
      ]

-- `delta = seq - tcp->nsn` of tcpdemux::process_tcp: a signed 32-bit distance.
unfoldable pub sequence_delta : {S : Type 0} → ℕ → Tcpip S → ℤ
sequence_delta seq t = signed32 (sub32 seq t.nsn)
