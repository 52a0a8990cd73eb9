-- ===== src/Datalink/Cooked.antt =====
-- src/datalink.cpp: what dl_linux_sll passes on of a frame with MPLS labels.
use tcpflow.Base.{
  ℕ, zero, suc, ◌+◌, ◌-◌, ◌*◌, ◌%◌, ◌≤◌, ◌<◌, ◌≡◌, sym, ap, ap₂, ◌∙◌, ◌≢◌, List, arith, dec_lt,
  length,
}
use tcpflow.Demux.Segment.{be16, byte}
use tcpflow.Datalink.{byte, Frame, packet, dropped, unwind_mpls, dl_linux_sll}

module _ (p : List ℕ) where
  -- The bit that marks the last label of a stack, of the label that begins at 16 + mpls.
  abbrev bottom : (mpls : ℕ) → ℕ
  bottom mpls = byte p (18 + mpls) % 2

  -- The first `n` labels behind mpls are not the last.
  abbrev Labels : (n mpls : ℕ) → Type 0
  Labels zero mpls = Unit {0}
  Labels (suc n) mpls = (bottom mpls ≡ 0) × Labels n (mpls + 4)

  abbrev Unwound : (n mpls caplen : ℕ) → Frame → Type 0
  Unwound n mpls caplen f =
      (caplen < 20 + mpls + 8 * n → f ≡ dropped)
      × (20 + mpls + 8 * n ≤ caplen
          → bottom (mpls + 4 * n) ≡ 1
          → f ≡ packet (20 + mpls + 4 * n) (caplen - (20 + 4 * n)))

  all-Labels : (n mpls : ℕ) → ((i : ℕ) → i < n → bottom (mpls + 4 * i) ≡ 0) → Labels n mpls
  all-Labels zero mpls h = tt
  all-Labels (suc n) mpls h = (
    ap bottom (omega arith) ∙ h 0 (omega arith),
    all-Labels n (mpls + 4) (λ i l. ap bottom (omega arith) ∙ h (suc i) (omega (arith, l))),
  )

  bottom-4 : (n mpls : ℕ) → bottom (mpls + 4 * suc n) ≡ bottom (mpls + 4 + 4 * n)
  bottom-4 n mpls = ap bottom (omega arith)

  -- The last bit is read in the third byte of the label.
  bottom_there : (mpls : ℕ) → byte p (16 + (mpls + 4) - 2) % 2 ≡ bottom mpls
  bottom_there mpls = ap (λ i. byte p i % 2) (omega arith)

  unwind_mpls_more :
      (fuel mpls caplen : ℕ)
      → caplen + mpls ≡ length p
      → 20 + mpls ≤ caplen
      → bottom mpls ≡ 0
      → unwind_mpls (suc fuel) p mpls caplen ≡ unwind_mpls fuel p (mpls + 4) (caplen - 4)
  unfolding unwind_mpls
  unwind_mpls_more fuel mpls caplen e room more =
      let bit : byte p (16 + (mpls + 4) - 2) % 2 ≡ 0 = bottom_there mpls ∙ more in
      ground (arith, bit, room, e)

  unwind_mpls_last :
      (fuel mpls caplen : ℕ)
      → caplen + mpls ≡ length p
      → 20 + mpls ≤ caplen
      → bottom mpls ≡ 1
      → unwind_mpls (suc fuel) p mpls caplen ≡ packet (16 + (mpls + 4)) (caplen - 4 - 16)
  unfolding unwind_mpls
  unwind_mpls_last fuel mpls caplen e room last =
      let bit : byte p (16 + (mpls + 4) - 2) % 2 ≡ 1 = bottom_there mpls ∙ last in
      ground (arith, bit, room, e)

  unwind_mpls-Unwound :
      (n fuel mpls caplen : ℕ)
      → caplen + mpls ≡ length p
      → 16 ≤ caplen
      → caplen ≤ fuel
      → Labels n mpls
      → Unwound n mpls caplen (unwind_mpls fuel p mpls caplen)
  unfolding unwind_mpls
  unwind_mpls-Unwound n zero mpls caplen e h l more = absurd (omega (arith, h, l))
  unwind_mpls-Unwound zero (suc fuel) mpls caplen e h l more = (
    λ short. ground (arith, short),
    λ room last.
        unwind_mpls_last fuel mpls caplen e (omega (arith, room)) (ap bottom (omega arith) ∙ last)
        ∙ ap₂ packet (omega arith) (omega arith),
  )
  unwind_mpls-Unwound (suc n) (suc fuel) mpls caplen e h l more = elim (dec_lt caplen (20 + mpls)) [
    | yes short ↦ (λ s. ground (arith, short), λ room last. absurd (omega (arith, short, room)))
    | no room ↦
        let next =
          unwind_mpls-Unwound n fuel (mpls + 4) (caplen - 4) (omega (arith, e, room))
            (omega (arith, room)) (omega (arith, l)) more.1 in
        let same : unwind_mpls (suc fuel) p mpls caplen
            ≡ unwind_mpls fuel p (mpls + 4) (caplen - 4) =
          unwind_mpls_more fuel mpls caplen e (omega (arith, room)) more.0 in
        (
          λ s. same ∙ next.0 (omega (arith, s)),
          λ s last.
              same
              ∙ next.1 (omega (arith, s)) (sym (bottom-4 n mpls) ∙ last)
              ∙ ap₂ packet (omega arith) (omega arith),
        )
  ]

-- What dl_linux_sll does with a frame of MPLS type whose first `n` labels do not end their stack:
-- with fewer than 20 + 8 * n bytes, 4 * n more than the header and the labels are, it drops the
-- frame; with that many, and where the label behind them is the last, it passes on just what stands
-- behind the header and the n + 1 labels. Any other frame with a header is passed on from 16.
pub dl_linux_sll_stack :
    (p : List ℕ)
    → 16 ≤ length p
    → (be16 p 14 ≢ 34887 → dl_linux_sll p ≡ packet 16 (length p - 16))
      × (be16 p 14 ≡ 34887
          → (n : ℕ) → ((i : ℕ) → i < n → byte p (18 + 4 * i) % 2 ≡ 0)
          → (length p < 20 + 8 * n → dl_linux_sll p ≡ dropped)
            × (20 + 8 * n ≤ length p
                → byte p (18 + 4 * n) % 2 ≡ 1
                → dl_linux_sll p ≡ packet (20 + 4 * n) (length p - (20 + 4 * n))))
unfolding dl_linux_sll
dl_linux_sll_stack p header = (
  λ plain. ground (arith, plain, header),
  λ mpls n more.
      let same : dl_linux_sll p ≡ unwind_mpls (length p) p 0 (length p) =
        ground (arith, mpls, header) in
      let u =
        unwind_mpls-Unwound p n (length p) 0 (length p) (omega arith) header (omega arith)
          (all-Labels p n 0 (λ i l. ap (bottom p) (omega arith) ∙ more i l)) in
      (
        λ short. same ∙ u.0 short,
        λ room last. same ∙ u.1 room (ap (bottom p) (omega arith) ∙ last),
      ),
)
