-- ===== src/Tcpip/Store/Sequence.antt =====
-- src/tcpip.cpp: the sequence numbers and the file position in `tcpip::store_packet`.
use tcpflow.Base.{
  ℕ, suc, ◌+◌, ◌-◌, ◌%◌, ◌^◌, ◌≤◌, ◌<◌, ◌≡◌, refl, sym, subst, ◌∙◌, ◌≢◌, inl, inr, true, false,
  none, some, List, arith, dec_lt, ℕ_discrete, length, length-take, Bool-cases, Option-cases,
}
use tcpflow.Base.Int.{ℤ, pos, negsuc}
use tcpflow.Base.Word.{u32, u64, word64}
use tcpflow.Flow.{TimeVal}
use tcpflow.Tcpip.File.{OpenFile, write, seek_set, seek_cur}
use tcpflow.Tcpip.State.{Options, ReconSet, Tcpip}
use tcpflow.Tcpip.Store.{
  refuse, store_packet, Placement, limit_length, place, open_up, is_keepalive, move_by,
  write_packet, store_placed,
}

-- A flow whose expected sequence number is that of its position, and whose file stands there.
pub record InStep {S : Type 0} (t : Tcpip S) (o : OpenFile) : Type 0 where
  pub sequence : t.nsn ≡ (t.isn + 1 + t.pos) % u32
  pub position : o.offset ≡ t.pos

-- The range of an int32_t.
abbrev pub IsInt32 : ℤ → Type 0
IsInt32 (pos n) = n < 2 ^ 31
IsInt32 (negsuc n) = n < 2 ^ 31

-- The position that a seek by `delta` reaches lies in the file.
abbrev pub Reaches : ℕ → ℤ → Type 0
Reaches p (pos n) = Unit {0}
Reaches p (negsuc n) = n < p

pub limit_length_le :
    (m : ℤ) (offset n : ℕ) → n < u32 → offset < 2 ^ 63 → limit_length m offset n ≤ n
unfolding limit_length
limit_length_le (pos m) offset n h k = ground arith
limit_length_le (negsuc m) offset n h k = ground arith

-- What `place` decides: in the file, with no room to open, or at its start behind opened room.
pub data Placed (position syn_count length : ℕ) (m delta : ℤ) (p : Placement) : Type 0 where
  inside :
      p.insert_bytes ≡ 0
      → p.offset ≡ (position + word64 delta) % u64
      → p.offset < 2 ^ 63
      → Reaches position delta
      → p.wlength ≡ limit_length m p.offset length
      → Placed position syn_count length m delta p
  before :
      (k : ℕ)
      → delta ≡ negsuc k
      → position ≤ k
      → p.insert_bytes ≡ suc k - position
      → p.offset ≡ 0
      → syn_count ≡ 0
      → p.wlength ≡ limit_length m 0 length
      → Placed position syn_count length m delta p

pub place-Placed :
    {S : Type 0} (m delta : ℤ) (t : Tcpip S) (n : ℕ) (p : Placement)
    → t.pos < 2 ^ 62
    → IsInt32 delta
    → place m t n delta ≡ some p
    → Placed t.pos t.syn_count n m delta p
unfolding place
place-Placed m (pos d) t n p h i e =
    inside (ground arith) (ground arith) (ground arith) tt (ground arith)
place-Placed m (negsuc d) t n p h i e = elim (dec_lt d t.pos) [
  | yes l ↦ inside (ground arith) (ground arith) (ground arith) l (ground arith)
  | no l ↦ before d refl (omega arith) (ground arith) (ground arith) (ground arith) (ground arith)
]

module _ {S : Type 0} where
  pub open_up_zero : (t : Tcpip S) (o : OpenFile) → open_up 0 t o ≡ (t, o)
  unfolding open_up
  open_up_zero t o = refl

  pub open_up_pos : (n : ℕ) (t : Tcpip S) (o : OpenFile) → 0 < n → (open_up n t o).0.pos ≡ 0
  unfolding open_up
  open_up_pos n t o h = ground arith

  open_up-InStep :
      (n : ℕ) (t : Tcpip S) (o : OpenFile)
      → InStep t o
      → n < u32
      → InStep (open_up n t o).0 (open_up n t o).1
  unfolding open_up seek_set
  open_up-InStep n t o v h = ground arith

  pub move_by-InStep :
      (delta : ℤ) (t : Tcpip S) (o : OpenFile)
      → InStep t o
      → t.pos < 2 ^ 62
      → IsInt32 delta
      → Reaches t.pos delta
      → InStep (move_by delta t o).0 (move_by delta t o).1
  unfolding move_by seek_cur
  move_by-InStep (pos n) t o v h i r = ground arith
  move_by-InStep (negsuc n) t o v h i r = ground arith

module _ {S : Type 0} (R : ReconSet S) where
  pub write_packet-InStep :
      (opt : Options) (ts : TimeVal) (offset wlength : ℕ) (payload : List ℕ) (t : Tcpip S)
      (o : OpenFile)
      → InStep t o
      → t.pos < 2 ^ 63
      → length payload < u32
      → wlength ≤ length payload
      → let (t', o') = write_packet R opt ts offset wlength payload t o in InStep t' o'
  unfolding write_packet write seek_cur
  write_packet-InStep opt ts offset wlength payload t o v h k l =
      ground (arith, length-take wlength payload)

  -- The three ways on after the file is opened.
  pub store_placed_here :
      (opt : Options) (ts : TimeVal) (p : Placement) (payload : List ℕ) (delta : ℤ) (t : Tcpip S)
      (o : OpenFile)
      → p.offset ≡ (open_up p.insert_bytes t o).0.pos
      → store_placed R opt ts p payload delta t o
        ≡ write_packet R opt ts p.offset p.wlength payload
            (open_up p.insert_bytes t o).0
            (open_up p.insert_bytes t o).1
  unfolding store_placed
  store_placed_here opt ts p payload delta t o h = ground arith

  pub store_placed_keepalive :
      (opt : Options) (ts : TimeVal) (p : Placement) (payload : List ℕ) (delta : ℤ) (t : Tcpip S)
      (o : OpenFile)
      → p.insert_bytes ≡ 0
      → p.offset ≢ t.pos
      → is_keepalive (length payload) delta ≡ true
      → store_placed R opt ts p payload delta t o ≡ (t, o)
  unfolding store_placed
  store_placed_keepalive opt ts p payload delta t o z h k = rw (z, open_up_zero t o) (ground arith)

  pub store_placed_seek :
      (opt : Options) (ts : TimeVal) (p : Placement) (payload : List ℕ) (delta : ℤ) (t : Tcpip S)
      (o : OpenFile)
      → p.insert_bytes ≡ 0
      → p.offset ≢ t.pos
      → is_keepalive (length payload) delta ≡ false
      → store_placed R opt ts p payload delta t o
        ≡ write_packet R opt ts p.offset p.wlength payload
            (move_by delta t o).0
            (move_by delta t o).1
  unfolding store_placed
  store_placed_seek opt ts p payload delta t o z h k = rw (z, open_up_zero t o) (ground arith)

  -- `store_packet` past its early returns.
  pub store_packet_placed :
      (opt : Options) (ts : TimeVal) (payload : List ℕ) (delta : ℤ) (t : Tcpip S) (o : OpenFile)
      (p : Placement)
      → length payload ≢ 0
      → place opt.max_bytes_per_flow t (length payload) delta ≡ some p
      → store_packet R opt ts payload delta t o ≡ store_placed R opt ts p payload delta t o
  unfolding store_packet
  store_packet_placed opt ts payload delta t o p h e = rw e (ground arith)

  pub store_packet_refused :
      (opt : Options) (ts : TimeVal) (payload : List ℕ) (delta : ℤ) (t : Tcpip S) (o : OpenFile)
      → length payload ≢ 0
      → place opt.max_bytes_per_flow t (length payload) delta ≡ none
      → store_packet R opt ts payload delta t o ≡ (refuse t, o)
  unfolding store_packet
  store_packet_refused opt ts payload delta t o h e = rw e (ground arith)

  pub store_packet_empty :
      (opt : Options) (ts : TimeVal) (payload : List ℕ) (delta : ℤ) (t : Tcpip S) (o : OpenFile)
      → length payload ≡ 0
      → store_packet R opt ts payload delta t o ≡ (t, o)
  unfolding store_packet
  store_packet_empty opt ts payload delta t o h = ground arith

  store_placed-InStep :
      (opt : Options) (ts : TimeVal) (payload : List ℕ) (delta : ℤ) (t : Tcpip S) (o : OpenFile)
      (p : Placement)
      → InStep t o
      → t.pos < 2 ^ 62
      → IsInt32 delta
      → length payload < u32
      → Placed t.pos t.syn_count (length payload) opt.max_bytes_per_flow delta p
      → let (t', o') = store_placed R opt ts p payload delta t o in InStep t' o'
  unfolding move_by
  store_placed-InStep opt ts payload delta t o p v h i n (inside z at low r w) =
      elim (ℕ_discrete p.offset t.pos) [
        | yes e ↦
            rw
              (
                store_placed_here opt ts p payload delta t o (rw (z, open_up_zero t o) e),
                z,
                open_up_zero t o,
              )
              (write_packet-InStep opt ts p.offset p.wlength payload t o v (omega arith) n (
                omega
                  (arith, limit_length_le opt.max_bytes_per_flow p.offset (length payload) n low)))
        | no ne ↦ elim (Bool-cases (is_keepalive (length payload) delta)) [
          | inl k ↦ rw (store_placed_keepalive opt ts p payload delta t o z ne k) v
          | inr k ↦ rw (store_placed_seek opt ts p payload delta t o z ne k) (
              write_packet-InStep opt ts p.offset p.wlength payload (move_by delta t o).0
                (move_by delta t o).1 (move_by-InStep delta t o v h i r) (omega arith) n
                (omega
                  (arith, limit_length_le opt.max_bytes_per_flow p.offset (length payload) n low)))
        ]
      ]
  store_placed-InStep opt ts payload delta t o p v h i n (before k d l z at s w) =
      let bound : k < 2 ^ 31 = subst IsInt32 d i in
      let positive : 0 < p.insert_bytes = omega arith in
      let zero_pos = open_up_pos p.insert_bytes t o positive in
      rw (store_placed_here opt ts p payload delta t o (at ∙ sym zero_pos)) (
        write_packet-InStep opt ts p.offset p.wlength payload (open_up p.insert_bytes t o).0
          (open_up p.insert_bytes t o).1 (open_up-InStep p.insert_bytes t o v (omega arith))
          (omega (arith, zero_pos)) n
          (omega
            (arith, limit_length_le opt.max_bytes_per_flow 0 (length payload) n (omega arith))))

  -- Storing a packet keeps the expected sequence number equal to the one of the file position, and
  -- the position of the file equal to the position of the flow, on every branch. The position is
  -- below 2^62, the distance a 32-bit integer and the length of the packet below 2^32.
  pub store_packet-InStep :
      (opt : Options) (ts : TimeVal) (payload : List ℕ) (delta : ℤ) (t : Tcpip S) (o : OpenFile)
      → InStep t o
      → t.pos < 2 ^ 62
      → IsInt32 delta
      → length payload < u32
      → let (t', o') = store_packet R opt ts payload delta t o in InStep t' o'
  unfolding refuse
  store_packet-InStep opt ts payload delta t o v h i n = elim (ℕ_discrete (length payload) 0) [
    | yes e ↦ rw (store_packet_empty opt ts payload delta t o e) v
    | no ne ↦ elim (Option-cases (place opt.max_bytes_per_flow t (length payload) delta)) [
      | inl e ↦
          rw (store_packet_refused opt ts payload delta t o ne e)
            (record { sequence = v.sequence; position = v.position })
      | inr (p, e) ↦ rw (store_packet_placed opt ts payload delta t o p ne e) (
          store_placed-InStep opt ts payload delta t o p v h i n
            (place-Placed opt.max_bytes_per_flow delta t (length payload) p h i e))
    ]
  ]
