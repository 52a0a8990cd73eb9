-- ===== src/Http/Scan/Ends.antt =====
-- src/scan_http.cpp: the loop over the chunks of a buffer, without a bound on its rounds.
use tcpflow.Base.{
  ℕ, zero, suc, ◌+◌, ◌-◌, ◌<◌, ◌≡◌, refl, sym, subst, ◌⊎◌, inl, inr, true, false, ◌||◌, Option,
  none, some, List, arith, length, drop, length-drop, ltb, ◌==◌, Bool-cases, if_either,
}
use tcpflow.Demux.State.{Stop, died, monad, Demux, Settings, M, ◌>>=◌, Outcome, stopped, done}
use tcpflow.Http.{Zlib, HttpSettings, Cbo}
use tcpflow.Http.Scan.{complete, Run, Returned, run_parser, after_chunk, next_cbo, scan_chunks}

Outcome-cases :
    {A : Type 0} (o : Outcome A) → ((a : A) × (o ≡ done a)) ⊎ ((s : Stop) × (o ≡ stopped s))
Outcome-cases (done a) = inl (a, refl)
Outcome-cases (stopped s) = inr (s, refl)

zero_or : (p : Returned) → (p.parsed == 0 || p.upgrade) ≡ true → (p.parsed ≡ 0) ⊎ (p.upgrade ≡ true)
zero_or p h = elim (Bool-cases (p.parsed == 0)) [
  | inl stays ↦ inl (ground (arith, stays))
  | inr moved ↦ inr (ground (arith, h, moved))
]

neither :
    (p : Returned) → (p.parsed == 0 || p.upgrade) ≡ false → (0 < p.parsed) × (p.upgrade ≡ false)
neither p h = elim (Bool-cases (p.parsed == 0)) [
  | inl stays ↦ absurd (ground (arith, h, stays))
  | inr moved ↦ (ground (arith, moved), ground (arith, h, moved))
]

bind_done :
    {S A B : Type 0} (m : M S A) (k : A → M S B) (d d' : Demux S) (a : A)
    → m d ≡ done (a, d')
    → (m >>= k) d ≡ k a d'
unfolding monad
bind_done m k d d' a e = ground (arith, e)

bind_stopped :
    {S A B : Type 0} (m : M S A) (k : A → M S B) (d : Demux S) (s : Stop)
    → m d ≡ stopped s
    → (m >>= k) d ≡ stopped s
unfolding monad
bind_stopped m k d s e = ground (arith, e)

module _ {S Z : Type 0} (cfg : Settings) (http : HttpSettings) (zlib : Zlib Z) where
  module _ (execute : List ℕ → Run) (buffer : List ℕ) where
    -- The parser's run over what the buffer holds from `offset` on.
    abbrev pub chunk : ℕ → Cbo Z → M S (Cbo Z × Option Returned)
    chunk offset c = run_parser cfg http zlib (execute (drop offset buffer)) (next_cbo c)

    -- What the loop comes to from an offset: a finite number of rounds, the last of which ends it.
    pub data Scanned : ℕ → Cbo Z → Demux S → Outcome (Cbo Z × Demux S) → Type 0 where
      callback_stops :
          (offset : ℕ) (c : Cbo Z) (d : Demux S) (s : Stop)
          → chunk offset c d ≡ stopped s
          → Scanned offset c d (stopped s)
      parser_stays :
          (offset : ℕ) (c c' : Cbo Z) (d d' : Demux S)
          → chunk offset c d ≡ done ((c', none), d')
          → Scanned offset c d (complete cfg http zlib c' d')
      too_far :
          (offset : ℕ) (c c' : Cbo Z) (p : Returned) (d d' : Demux S)
          → chunk offset c d ≡ done ((c', some p), d')
          → length buffer - offset < p.parsed
          → Scanned offset c d (stopped died)
      at_the_end :
          (offset : ℕ) (c c' : Cbo Z) (p : Returned) (d d' : Demux S)
          → chunk offset c d ≡ done ((c', some p), d')
          → p.parsed ≡ length buffer - offset
          → Scanned offset c d
              ((do (c'', _) ← run_parser cfg http zlib p.at_end c'; complete cfg http zlib c'') d')
      no_progress :
          (offset : ℕ) (c c' : Cbo Z) (p : Returned) (d d' : Demux S)
          → chunk offset c d ≡ done ((c', some p), d')
          → p.parsed < length buffer - offset
          → (p.parsed ≡ 0) ⊎ (p.upgrade ≡ true)
          → Scanned offset c d (complete cfg http zlib c' d')
      next_chunk :
          (offset : ℕ) (c c' c'' : Cbo Z) (p : Returned) (d d' d'' : Demux S)
          (o : Outcome (Cbo Z × Demux S))
          → chunk offset c d ≡ done ((c', some p), d')
          → 0 < p.parsed
          → p.parsed < length buffer - offset
          → p.upgrade ≡ false
          → complete cfg http zlib c' d' ≡ done (c'', d'')
          → Scanned (offset + p.parsed) c'' d'' o
          → Scanned offset c d o

  module _ (execute : List ℕ → Run) (buffer : List ℕ) where
    after_chunk-Scanned :
        (resume : ℕ → Cbo Z → M S (Cbo Z)) (offset : ℕ) (c c' : Cbo Z) (r : Option Returned)
        (d d' : Demux S)
        → chunk execute buffer offset c d ≡ done ((c', r), d')
        → ((o : ℕ) (c' : Cbo Z) (d' : Demux S)
            → offset < o
            → o < offset + (length buffer - offset)
            → Scanned execute buffer o c' d' (resume o c' d'))
        → Scanned execute buffer offset c d
            (after_chunk cfg http zlib resume (drop offset buffer) offset c' r d')
    unfolding after_chunk monad
    after_chunk-Scanned resume offset c c' none d d' e h = parser_stays offset c c' d d' e
    after_chunk-Scanned resume offset c c' (some p) d d' e h =
        let left : length (drop offset buffer) ≡ length buffer - offset =
          length-drop offset buffer in
        let goal : M S (Cbo Z) → Type 0 = λ m. Scanned execute buffer offset c d (m d') in
        if_either goal (ltb (length (drop offset buffer)) p.parsed) _ _
          (λ far. too_far offset c c' p d d' e (ground (arith, left, far)))
          (λ near.
            if_either goal (p.parsed == length (drop offset buffer)) _ _
              (λ last. at_the_end offset c c' p d d' e (ground (arith, left, last)))
              (λ inside.
                let less : p.parsed < length buffer - offset = ground (arith, left, near, inside) in
                if_either goal (p.parsed == 0 || p.upgrade) _ _
                  (λ stay. no_progress offset c c' p d d' e less (zero_or p stay))
                  (λ go.
                    let (moved, plain) = neither p go in
                    next_chunk offset c c' _ p d d' _ _ e moved less plain refl
                      (h (offset + p.parsed) _ _ (omega (arith, moved)) (omega (arith, less))))))

    -- The loop of the scanner ends by its own tests, whatever the parser does: within one round more
    -- than there are bytes left, it comes to what finitely many rounds without a bound come to.
    pub scan_chunks-Scanned :
        (fuel offset : ℕ) (c : Cbo Z) (d : Demux S)
        → length buffer - offset < fuel
        → Scanned execute buffer offset c d
            (scan_chunks cfg http zlib execute fuel buffer offset c d)
    unfolding scan_chunks monad
    scan_chunks-Scanned zero offset c d h = absurd (omega (arith, h))
    scan_chunks-Scanned (suc fuel) offset c d h =
        let after : Cbo Z × Option Returned → M S (Cbo Z) = λ q.
          after_chunk cfg http zlib (scan_chunks cfg http zlib execute fuel buffer)
            (drop offset buffer) offset q.0 q.1 in
        elim (Outcome-cases (chunk execute buffer offset c d)) [
          | inl (((c', r), d'), e) ↦
              let same : scan_chunks cfg http zlib execute (suc fuel) buffer offset c d
                  ≡ after (c', r) d' =
                bind_done (chunk execute buffer offset c) after d d' (c', r) e in
              subst (Scanned execute buffer offset c d) (sym same) (
                after_chunk-Scanned (scan_chunks cfg http zlib execute fuel buffer) offset c c' r d
                  d' e
                  (λ o c'' d'' lo hi.
                    scan_chunks-Scanned fuel o c'' d'' (omega (arith, lo, hi, h))))
          | inr (s, e) ↦
              let same : scan_chunks cfg http zlib execute (suc fuel) buffer offset c d
                  ≡ stopped s =
                bind_stopped (chunk execute buffer offset c) after d s e in
              subst (Scanned execute buffer offset c d) (sym same) (callback_stops offset c d s e)
        ]
