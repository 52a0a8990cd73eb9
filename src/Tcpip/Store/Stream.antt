-- ===== src/Tcpip/Store/Stream.antt =====
-- The segments of a stream, and where store_packet places them.
use tcpflow.Tcpip.Store.Sequence.{InStep}
use tcpflow.Base.{
  ℕ, zero, suc, ◌+◌, ◌-◌, ◌%◌, ◌^◌, ◌≤◌, ◌<◌, ◌≡◌, refl, ap, subst, ◌∙◌, ◌⊎◌, some, List, [], ◌∷◌,
  arith, dec_lt, length, get_elem?, take,
}
use tcpflow.Base.Int.{ℤ, pos, negsuc}
use tcpflow.Base.Word.{u64, u32, sub32, signed32}
use tcpflow.Tcpip.File.{seek_cur, OpenFile, write_at, write_at_in, write_at_before, write_at_after}
use tcpflow.Tcpip.Store.{Tcpip, sequence_delta, Placement, place, limit_length}

-- `n` bytes of the stream from `at` on.
abbrev pub slice : (ℕ → ℕ) → ℕ → ℕ → List ℕ
slice stream at zero = []
slice stream at (suc n) = stream at ∷ slice stream (suc at) n

pub length-slice : (stream : ℕ → ℕ) (at n : ℕ) → length (slice stream at n) ≡ n
length-slice stream at zero = refl
length-slice stream at (suc n) = ap suc (length-slice stream (suc at) n)

pub take-slice :
    (stream : ℕ → ℕ) (at n w : ℕ) → w ≤ n → take w (slice stream at n) ≡ slice stream at w
take-slice stream at n zero h = refl
take-slice stream at zero (suc w) h = elim h [ ]
take-slice stream at (suc n) (suc w) h =
    ap (◌∷◌ (stream at)) (take-slice stream (suc at) n w (omega arith))

get_elem?-slice :
    (stream : ℕ → ℕ) (at n i : ℕ) → i < n → get_elem? (slice stream at n) i ≡ some (stream (at + i))
get_elem?-slice stream at zero i h = elim h [ ]
get_elem?-slice stream at (suc n) zero h = ap (λ k. some (stream k)) (omega arith)
get_elem?-slice stream at (suc n) (suc i) h =
    get_elem?-slice stream (suc at) n i (omega arith) ∙ ap (λ k. some (stream k)) (omega arith)

-- The file agrees with the stream at `i`.
abbrev pub Agrees : (ℕ → ℕ) → List ℕ → ℕ → Type 0
Agrees stream f i = get_elem? f i ≡ some (stream i)

pub write_slice_in :
    (stream : ℕ → ℕ) (at w i : ℕ) (f : List ℕ)
    → at ≤ i
    → i < at + w
    → Agrees stream (write_at at (slice stream at w) f) i
write_slice_in stream at w i f h k =
    let j : at + (i - at) ≡ i = omega arith in
    subst (λ x. get_elem? (write_at at (slice stream at w) f) x ≡ some (stream x)) j
      (write_at_in at (slice stream at w) f (i - at) (omega (arith, length-slice stream at w))
        ∙ get_elem?-slice stream at w (i - at) (omega arith))

lt-length : (f : List ℕ) (i v : ℕ) → get_elem? f i ≡ some v → i < length f
lt-length [] i v h = cc
lt-length (x ∷ f) zero v h = omega arith
lt-length (x ∷ f) (suc i) v h = omega (arith, lt-length f i v h)

pub write_slice_keeps :
    (stream : ℕ → ℕ) (at w i : ℕ) (f : List ℕ)
    → Agrees stream f i
    → Agrees stream (write_at at (slice stream at w) f) i
write_slice_keeps stream at w i f a = elim (dec_lt i at) [
  | yes h ↦ write_at_before at (slice stream at w) f i h (lt-length f i (stream i) a) ∙ a
  | no h ↦ elim (dec_lt i (at + w)) [
    | yes k ↦ write_slice_in stream at w i f (omega arith) k
    | no k ↦ write_at_after at (slice stream at w) f i (omega (arith, length-slice stream at w)) ∙ a
  ]
]

-- A segment: `len` bytes of the stream from `at` on.
pub record Segment : Type 0 where
  pub at : ℕ
  pub len : ℕ

-- The segment begins within 2^31 of `end`, the end of the segment that came before it.
abbrev pub InWindow : ℕ → Segment → Type 0
InWindow end s =
    (s.at < end + 2 ^ 31) × (end ≤ s.at + 2 ^ 31) × (0 < s.len) × (s.len < 2 ^ 31) × (s.at < 2 ^ 61)

abbrev pub AllInWindow : ℕ → List Segment → Type 0
AllInWindow end [] = Unit {0}
AllInWindow end (s ∷ ss) = InWindow end s × AllInWindow (s.at + s.len) ss

abbrev pub Covered : ℕ → List Segment → Type 0
Covered i [] = ⊥
Covered i (s ∷ ss) = ((s.at ≤ i) × (i < s.at + s.len)) ⊎ Covered i ss

-- The byte is below the limit of bytes per flow, if there is one.
abbrev pub Within : ℤ → ℕ → Type 0
Within (pos m) i = (i < m) × (m < 2 ^ 63)
Within (negsuc m) i = Unit {0}

pub Within-limit :
    (m : ℤ) (at n i : ℕ)
    → Within m i
    → n < 2 ^ 31
    → at < 2 ^ 61
    → at ≤ i
    → i < at + n
    → i < at + limit_length m at n
unfolding limit_length
Within-limit (pos m) at n i w h k a b = ground arith
Within-limit (negsuc m) at n i w h k a b = b

-- The signed distance that the code computes is the true one within the window.
distance_forward :
    (isn end at : ℕ)
    → end ≤ at
    → at < end + 2 ^ 31
    → signed32 (sub32 ((isn + 1 + at) % u32) ((isn + 1 + end) % u32)) ≡ pos (at - end)
distance_forward isn end at h k = ground arith

distance_back :
    (isn end at : ℕ)
    → at < end
    → end ≤ at + 2 ^ 31
    → signed32 (sub32 ((isn + 1 + at) % u32) ((isn + 1 + end) % u32)) ≡ negsuc (end - at - 1)
distance_back isn end at h k = ground arith

-- A placement inside the file.
abbrev pub at_place : ℤ → ℕ → ℕ → Placement
at_place m at n = record { insert_bytes = 0; offset = at; wlength = limit_length m at n }

module _ {S : Type 0} where
  pub delta_ahead :
      (t : Tcpip S) (o : OpenFile) (at : ℕ)
      → InStep t o
      → t.pos ≤ at
      → at < t.pos + 2 ^ 31
      → sequence_delta ((t.isn + 1 + at) % u32) t ≡ pos (at - t.pos)
  unfolding sequence_delta
  delta_ahead t o at v h k = rw v.sequence (distance_forward t.isn t.pos at h k)

  pub delta_behind :
      (t : Tcpip S) (o : OpenFile) (at : ℕ)
      → InStep t o
      → at < t.pos
      → t.pos ≤ at + 2 ^ 31
      → sequence_delta ((t.isn + 1 + at) % u32) t ≡ negsuc (t.pos - at - 1)
  unfolding sequence_delta
  delta_behind t o at v h k = rw v.sequence (distance_back t.isn t.pos at h k)

  pub place_ahead :
      (m : ℤ) (t : Tcpip S) (n at : ℕ)
      → t.pos ≤ at
      → at < 2 ^ 61
      → place m t n (pos (at - t.pos)) ≡ some (at_place m at n)
  unfolding place
  place_ahead m t n at h k =
      let e : (t.pos + (at - t.pos) % u64) % u64 ≡ at = omega arith in rw e (ground arith)

  pub place_behind :
      (m : ℤ) (t : Tcpip S) (n at : ℕ)
      → at < t.pos
      → t.pos < 2 ^ 62
      → place m t n (negsuc (t.pos - at - 1)) ≡ some (at_place m at n)
  unfolding place
  place_behind m t n at h k =
      let e : (t.pos + (u64 - 1 - (t.pos - at - 1) % u64) % u64) % u64 ≡ at = omega arith in
      rw e (ground arith)

pub bytes-seek_cur : (delta : ℤ) (o : OpenFile) → (seek_cur delta o).bytes ≡ o.bytes
unfolding seek_cur
bytes-seek_cur (pos n) o = refl
bytes-seek_cur (negsuc n) o = ground arith
