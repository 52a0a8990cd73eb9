-- ===== src/Tcpip/File.antt =====
-- A regular file as POSIX has it: its bytes, and an open description of it with a position.
-- A write past the end fills the gap with zeros; an empty write changes nothing.
use tcpflow.Base.{
  ℕ, zero, suc, ◌+◌, ◌-◌, ◌≤◌, ◌<◌, max, ◌≡◌, refl, ap, List, [], ◌∷◌, arith, length, get_elem?,
  take, drop, length-take, length-drop, ltb, if◌then◌else◌,
}
use tcpflow.Base.Int.{ℤ, pos, negsuc}

pub record OpenFile : Type 0 where
  pub bytes : List ℕ
  pub offset : ℕ

-- The bytes of a file overwritten from its start.
abbrev pub overlay : List ℕ → List ℕ → List ℕ
overlay [] f = f
overlay (b ∷ bs) [] = b ∷ overlay bs []
overlay (b ∷ bs) (x ∷ f) = b ∷ overlay bs f

abbrev pub write_from : ℕ → List ℕ → List ℕ → List ℕ
write_from zero bs f = overlay bs f
write_from (suc n) bs [] = 0 ∷ write_from n bs []
write_from (suc n) bs (x ∷ f) = x ∷ write_from n bs f

unfoldable pub write_at : ℕ → List ℕ → List ℕ → List ℕ
write_at off [] f = f
write_at off (b ∷ bs) f = write_from off (b ∷ bs) f

unfoldable pub read_at : ℕ → ℕ → List ℕ → List ℕ
read_at off n f = take n (drop off f)

-- `write`, `lseek(fd, off, SEEK_SET)` and `lseek(fd, d, SEEK_CUR)`, which refuses a position
-- before the start.
unfoldable pub write : List ℕ → OpenFile → OpenFile
write bs o = record { bytes = write_at o.offset bs o.bytes; offset = o.offset + length bs }

unfoldable pub seek_set : ℕ → OpenFile → OpenFile
seek_set off o = record o { offset = off }

unfoldable pub seek_cur : ℤ → OpenFile → OpenFile
seek_cur (pos n) o = record o { offset = o.offset + n }
seek_cur (negsuc n) o = if ltb n o.offset then record o { offset = o.offset - suc n } else o

length-overlay : (bs f : List ℕ) → length (overlay bs f) ≡ max (length bs) (length f)
length-overlay [] f = omega arith
length-overlay (b ∷ bs) [] = omega (arith, length-overlay bs [])
length-overlay (b ∷ bs) (x ∷ f) = omega (arith, length-overlay bs f)

length-write_from :
    (n : ℕ) (bs f : List ℕ) → length (write_from n bs f) ≡ max (n + length bs) (length f)
length-write_from zero bs f = omega (arith, length-overlay bs f)
length-write_from (suc n) bs [] = omega (arith, length-write_from n bs [])
length-write_from (suc n) bs (x ∷ f) = omega (arith, length-write_from n bs f)

pub length-write_at :
    (n : ℕ) (b : ℕ) (bs f : List ℕ)
    → length (write_at n (b ∷ bs) f) ≡ max (n + suc (length bs)) (length f)
unfolding write_at
length-write_at n b bs f = length-write_from n (b ∷ bs) f

overlay_in : (bs f : List ℕ) (i : ℕ) → i < length bs → get_elem? (overlay bs f) i ≡ get_elem? bs i
overlay_in [] f i h = elim h [ ]
overlay_in (b ∷ bs) [] zero h = refl
overlay_in (b ∷ bs) [] (suc i) h = overlay_in bs [] i (omega arith)
overlay_in (b ∷ bs) (x ∷ f) zero h = refl
overlay_in (b ∷ bs) (x ∷ f) (suc i) h = overlay_in bs f i (omega arith)

overlay_out : (bs f : List ℕ) (i : ℕ) → length bs ≤ i → get_elem? (overlay bs f) i ≡ get_elem? f i
overlay_out [] f i h = refl
overlay_out (b ∷ bs) [] zero h = absurd (omega arith)
overlay_out (b ∷ bs) [] (suc i) h = overlay_out bs [] i (omega arith)
overlay_out (b ∷ bs) (x ∷ f) zero h = absurd (omega arith)
overlay_out (b ∷ bs) (x ∷ f) (suc i) h = overlay_out bs f i (omega arith)

write_from_in :
    (n : ℕ) (bs f : List ℕ) (i : ℕ)
    → i < length bs
    → get_elem? (write_from n bs f) (n + i) ≡ get_elem? bs i
write_from_in zero bs f i h = let e : zero + i ≡ i = omega arith in rw e (overlay_in bs f i h)
write_from_in (suc n) bs [] i h =
    let e : suc n + i ≡ suc (n + i) = omega arith in rw e (write_from_in n bs [] i h)
write_from_in (suc n) bs (x ∷ f) i h =
    let e : suc n + i ≡ suc (n + i) = omega arith in rw e (write_from_in n bs f i h)

write_from_before :
    (n : ℕ) (bs f : List ℕ) (i : ℕ)
    → i < n
    → i < length f
    → get_elem? (write_from n bs f) i ≡ get_elem? f i
write_from_before zero bs f i h k = elim h [ ]
write_from_before (suc n) bs [] i h k = elim k [ ]
write_from_before (suc n) bs (x ∷ f) zero h k = refl
write_from_before (suc n) bs (x ∷ f) (suc i) h k =
    write_from_before n bs f i (omega arith) (omega arith)

write_from_after :
    (n : ℕ) (bs f : List ℕ) (i : ℕ)
    → n + length bs ≤ i
    → get_elem? (write_from n bs f) i ≡ get_elem? f i
write_from_after zero bs f i h = overlay_out bs f i (omega arith)
write_from_after (suc n) bs [] zero h = absurd (omega arith)
write_from_after (suc n) bs [] (suc i) h = write_from_after n bs [] i (omega arith)
write_from_after (suc n) bs (x ∷ f) zero h = absurd (omega arith)
write_from_after (suc n) bs (x ∷ f) (suc i) h = write_from_after n bs f i (omega arith)

-- The written bytes are where they were written.
pub write_at_in :
    (n : ℕ) (bs f : List ℕ) (i : ℕ)
    → i < length bs
    → get_elem? (write_at n bs f) (n + i) ≡ get_elem? bs i
unfolding write_at
write_at_in n [] f i h = elim h [ ]
write_at_in n (b ∷ bs) f i h = write_from_in n (b ∷ bs) f i h

-- What was there stays, before the write and behind it.
pub write_at_before :
    (n : ℕ) (bs f : List ℕ) (i : ℕ)
    → i < n
    → i < length f
    → get_elem? (write_at n bs f) i ≡ get_elem? f i
unfolding write_at
write_at_before n [] f i h k = refl
write_at_before n (b ∷ bs) f i h k = write_from_before n (b ∷ bs) f i h k

pub write_at_after :
    (n : ℕ) (bs f : List ℕ) (i : ℕ)
    → n + length bs ≤ i
    → get_elem? (write_at n bs f) i ≡ get_elem? f i
unfolding write_at
write_at_after n [] f i h = refl
write_at_after n (b ∷ bs) f i h = write_from_after n (b ∷ bs) f i h

-- No write shrinks a file.
pub length-le-write_at : (n : ℕ) (bs f : List ℕ) → length f ≤ length (write_at n bs f)
unfolding write_at
length-le-write_at n [] f = omega arith
length-le-write_at n (b ∷ bs) f = omega (arith, length-write_from n (b ∷ bs) f)

pub length-read_at : (off n : ℕ) (f : List ℕ) → off + n ≤ length f → length (read_at off n f) ≡ n
unfolding read_at
length-read_at off n f h = omega (arith, length-take n (drop off f), length-drop off f)

take-length : (f : List ℕ) → take (length f) f ≡ f
take-length [] = refl
take-length (x ∷ f) = ap (◌∷◌ x) (take-length f)

pub read_at-all : (f : List ℕ) → read_at 0 (length f) f ≡ f
unfolding read_at
read_at-all f = take-length f
