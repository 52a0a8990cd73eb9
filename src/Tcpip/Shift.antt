-- ===== src/Tcpip/Shift.antt =====
-- src/tcpip.cpp: `shift_file`, which opens up `inslen` bytes at the start of the transcript file.
use tcpflow.Base.{
  ℕ, zero, suc, ◌+◌, ◌-◌, ◌*◌, ◌≤◌, ◌<◌, min, ◌≡◌, refl, ◌∙◌, Bool, true, false, List, [], ◌∷◌,
  arith, length, get_elem?, ◌==◌, if◌then◌else◌,
}
use tcpflow.Tcpip.File.{
  OpenFile, write_at, read_at, write, seek_set, length-le-write_at, length-read_at, read_at-all,
  write_at_before,
}

-- BUFFERSIZE.
abbrev pub buffer_size : ℕ
buffer_size = 64 * 1024

-- The file with the success of the call. `size` is `read_end_offset`, which the loop leaves alone,
-- and `left` is `bytes_to_move`. Without fuel the loop reports a failure.
unfoldable pub shift_loop : ℕ → (buf size inslen left : ℕ) → OpenFile → OpenFile × Bool
unfolding write seek_set
shift_loop zero buf size inslen left o = (o, false)
shift_loop (suc fuel) buf size inslen left o =
    let n = min left buf in
    let rd_off = size - n in
    let got = read_at rd_off n o.bytes in
    let rest =
      shift_loop fuel buf size inslen (left - n) (write got (seek_set (rd_off + inslen) o)) in
    let stop =
      if length got == n then rest else (record o { offset = rd_off + length got }, false) in
    if left == 0 then (o, true) else stop

-- `fstat` gives the size; a round moves at least one byte.
unfoldable pub shift_file : ℕ → OpenFile → OpenFile × Bool
shift_file inslen o =
    let size = length o.bytes in shift_loop (suc size) buffer_size size inslen size o

-- What one round of the loop leaves.
moved : (size inslen n : ℕ) → OpenFile → OpenFile
unfolding write seek_set
moved size inslen n o = write (read_at (size - n) n o.bytes) (seek_set (size - n + inslen) o)

module _ (buf size inslen : ℕ) where
  shift_loop_step :
      (fuel left : ℕ) (o : OpenFile)
      → 0 < left
      → left ≤ size
      → size ≤ length o.bytes
      → shift_loop (suc fuel) buf size inslen left o
        ≡ shift_loop fuel buf size inslen (left - min left buf) (moved size inslen (min left buf) o)
  unfolding shift_loop moved
  shift_loop_step fuel left o h k l =
      ground (arith, length-read_at (size - min left buf) (min left buf) o.bytes)

  shift_loop_stop :
      (fuel : ℕ) (o : OpenFile) → shift_loop (suc fuel) buf size inslen 0 o ≡ (o, true)
  unfolding shift_loop
  shift_loop_stop fuel o = refl

  length-le-moved : (n : ℕ) (o : OpenFile) → length o.bytes ≤ length (moved size inslen n o).bytes
  unfolding moved
  length-le-moved n o =
      length-le-write_at (size - n + inslen) (read_at (size - n) n o.bytes) o.bytes

  moved_front :
      (n i : ℕ) (o : OpenFile)
      → i < size - n + inslen
      → i < length o.bytes
      → get_elem? (moved size inslen n o).bytes i ≡ get_elem? o.bytes i
  unfolding moved
  moved_front n i o h k =
      write_at_before (size - n + inslen) (read_at (size - n) n o.bytes) o.bytes i h k

-- With a buffer and enough fuel the loop ends by its test.
shift_loop_done :
    (buf size inslen : ℕ)
    → 0 < buf
    → (fuel left : ℕ) (o : OpenFile) → left < fuel
    → left ≤ size
    → size ≤ length o.bytes
    → (shift_loop fuel buf size inslen left o).1 ≡ true
shift_loop_done buf size inslen room zero left o h k l = elim h [ ]
shift_loop_done buf size inslen room (suc fuel) zero o h k l =
    rw (shift_loop_stop buf size inslen fuel o)
shift_loop_done buf size inslen room (suc fuel) (suc left) o h k l =
    rw (shift_loop_step buf size inslen fuel (suc left) o (omega arith) k l) (
      shift_loop_done buf size inslen room fuel (suc left - min (suc left) buf)
        (moved size inslen (min (suc left) buf) o) (omega arith) (omega arith)
        (omega (arith, length-le-moved buf size inslen (min (suc left) buf) o)))

-- No round writes below `size - buf + inslen`.
shift_loop_front :
    (buf size inslen i : ℕ)
    → i < size - buf + inslen
    → (fuel left : ℕ) (o : OpenFile) → left ≤ size
    → size ≤ length o.bytes
    → i < length o.bytes
    → get_elem? (shift_loop fuel buf size inslen left o).0.bytes i ≡ get_elem? o.bytes i
unfolding shift_loop
shift_loop_front buf size inslen i below zero left o k l m = refl
shift_loop_front buf size inslen i below (suc fuel) zero o k l m = refl
shift_loop_front buf size inslen i below (suc fuel) (suc left) o k l m =
    let n : ℕ = min (suc left) buf in
    let next : OpenFile = moved size inslen (min (suc left) buf) o in
    rw (shift_loop_step buf size inslen fuel (suc left) o (omega arith) k l) (
      shift_loop_front buf size inslen i below fuel (suc left - n) next (omega arith)
        (omega (arith, length-le-moved buf size inslen n o))
        (omega (arith, length-le-moved buf size inslen n o))
      ∙ moved_front buf size inslen n i o (omega arith) m)

-- `shift_file` always finishes: no read falls short.
pub shift_file_done : (inslen : ℕ) (o : OpenFile) → (shift_file inslen o).1 ≡ true
unfolding shift_file
shift_file_done inslen o =
    let size = length o.bytes in
    shift_loop_done buffer_size size inslen (omega arith) (suc size) size o (omega arith)
      (omega arith) (omega arith)

write_at-nil : (n : ℕ) (f : List ℕ) → length f ≡ 0 → f ≡ write_at n f f
unfolding write_at
write_at-nil n [] h = refl
write_at-nil n (x ∷ f) h = absurd (omega arith)

moved_all :
    (size inslen : ℕ) (o : OpenFile)
    → length o.bytes ≡ size
    → (moved size inslen size o).bytes ≡ write_at inslen o.bytes o.bytes
unfolding moved
moved_all size inslen o e =
    let z : size - size ≡ 0 = omega arith in
    let s : 0 + inslen ≡ inslen = omega arith in rw (z, ← e, read_at-all o.bytes, s)

shift_loop_fits :
    (buf inslen size : ℕ) (o : OpenFile)
    → length o.bytes ≡ size
    → size ≤ buf
    → (shift_loop (suc size) buf size inslen size o).0.bytes ≡ write_at inslen o.bytes o.bytes
shift_loop_fits buf inslen zero o e h =
    rw (shift_loop_stop buf 0 inslen 0 o) (write_at-nil inslen o.bytes e)
shift_loop_fits buf inslen (suc size) o e h =
    let m : min (suc size) buf ≡ suc size = omega arith in
    let z : suc size - suc size ≡ 0 = omega arith in
    rw
      (
        shift_loop_step buf (suc size) inslen (suc size) (suc size) o (omega arith) (omega arith)
            (omega arith),
        m,
        z,
        shift_loop_stop buf (suc size) inslen size (moved (suc size) inslen (suc size) o),
      )
      (moved_all (suc size) inslen o e)

-- A file that fits the buffer is written once more, `inslen` bytes further.
pub shift_file_fits :
    (inslen : ℕ) (o : OpenFile)
    → length o.bytes ≤ buffer_size
    → (shift_file inslen o).0.bytes ≡ write_at inslen o.bytes o.bytes
unfolding shift_file
shift_file_fits inslen o h = shift_loop_fits buffer_size inslen (length o.bytes) o refl h

-- What lies below `inslen` plus the length less the 64 KiB of the buffer is not moved.
pub shift_file_front :
    (inslen i : ℕ) (o : OpenFile)
    → i < length o.bytes - buffer_size + inslen
    → i < length o.bytes
    → get_elem? (shift_file inslen o).0.bytes i ≡ get_elem? o.bytes i
unfolding shift_file
shift_file_front inslen i o h k =
    let size = length o.bytes in
    shift_loop_front buffer_size size inslen i h (suc size) size o (omega arith) (omega arith) k

shift_file_test :
    (shift_file 2 (record { bytes = 7 ∷ 8 ∷ 9 ∷ []; offset = 0 })).0.bytes ≡ 7 ∷ 8 ∷ 7 ∷ 8 ∷ 9 ∷ []
unfolding shift_file shift_loop read_at write_at write seek_set
shift_file_test = refl
