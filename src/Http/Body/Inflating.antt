-- ===== src/Http/Body/Inflating.antt =====
-- src/scan_http.cpp: what on_body writes of compressed input.
use tcpflow.Base.{
  ℕ, zero, suc, ◌<◌, ◌≡◌, refl, sym, ap, subst, ◌∙◌, ◌≢◌, true, false, some, List, [], ◌∷◌, ◌++◌,
  append_assoc, append-nil, arith, length, length-append,
}
use tcpflow.Demux.Os.{Os}
use tcpflow.Base.Word.{add64}
use tcpflow.Http.Body.Writes.{AtEnd, write_fd-end}
use tcpflow.Http.{Zlib, z_ok, z_stream_end, Cbo}
use tcpflow.Http.Body.{
  note_first, inflate_all, store_compressed, store_inflated, inflate_loop, on_body,
}

module _ {Z : Type 0} (zlib : Zlib Z) where
  inflate_loop-nil :
      (fuel fd : ℕ) (z : Z) (c : Cbo Z) (os : Os)
      → inflate_loop zlib fuel fd z [] c os ≡ (record c { zs = some z }, os)
  unfolding inflate_loop
  inflate_loop-nil zero fd z c os = refl
  inflate_loop-nil (suc fuel) fd z c os = refl

  -- What the calls of `inflate` on a piece put out and is written. What the call that ends a stream
  -- before its input puts out is not.
  pub data Stored : Z → List ℕ → List ℕ → Type 0 where
    used_up : (z : Z) → Stored z [] []
    more :
        (z : Z) (b : ℕ) (input out : List ℕ)
        → (zlib.inflate z (b ∷ input)).result ≡ z_ok
        → Stored (zlib.inflate z (b ∷ input)).next (zlib.inflate z (b ∷ input)).avail_in out
        → Stored z (b ∷ input) ((zlib.inflate z (b ∷ input)).output ++ out)
    ended :
        (z : Z) (b : ℕ) (input : List ℕ)
        → (zlib.inflate z (b ∷ input)).result ≡ z_stream_end
        → (zlib.inflate z (b ∷ input)).avail_in ≡ []
        → Stored z (b ∷ input) (zlib.inflate z (b ∷ input)).output
    trailing :
        (z : Z) (b : ℕ) (input : List ℕ)
        → (zlib.inflate z (b ∷ input)).result ≡ z_stream_end
        → length (zlib.inflate z (b ∷ input)).avail_in ≢ 0
        → Stored z (b ∷ input) []

  -- From `c` and a file of `content` on, `out` was written and counted.
  record IsStored (fd : ℕ) (content out : List ℕ) (c c' : Cbo Z) (os' : Os) : Type 0 where
    at_end : AtEnd fd (content ++ out) os'
    good : c'.zfail ≡ false
    counted : add64 c'.bytes_written 0 ≡ add64 c.bytes_written (length out)

  store_inflated-IsStored :
      (fd : ℕ) (content out : List ℕ) (c : Cbo Z) (os : Os)
      → c.zfail ≡ false
      → AtEnd fd content os
      → let (c', os') = store_inflated fd out c os in IsStored fd content out c c' os'
  unfolding store_inflated
  store_inflated-IsStored fd content out c os g h =
      let (os', w, e) = write_fd-end fd content out os h in
      record {
        at_end = ground (arith, w, e);
        good = ground (arith, w, g);
        counted = ground (arith, w);
      }

  inflate_loop-IsStored :
      (m fd : ℕ) (z : Z) (input content out : List ℕ) (c : Cbo Z) (os : Os)
      → Stored z input out
      → zlib.left z input < m
      → c.zfail ≡ false
      → AtEnd fd content os
      → let (c', os') = inflate_loop zlib m fd z input c os in IsStored fd content out c c' os'
  unfolding inflate_loop
  inflate_loop-IsStored m fd z [] content _ c os (used_up _) l g h =
      subst (λ q. IsStored fd content [] c q.0 q.1) (sym (inflate_loop-nil m fd z c os))
        (record { at_end = rw (append-nil content) h; good = g; counted = refl })
  inflate_loop-IsStored zero fd z (b ∷ input) content out c os s l g h = absurd (omega (arith, l))
  inflate_loop-IsStored (suc m) fd z (b ∷ input) content _ c os (trailing _ _ _ e n) l g h =
      let r = zlib.inflate z (b ∷ input) in
      let same : inflate_loop zlib (suc m) fd z (b ∷ input) c os
          ≡ (record c { zs = some r.next }, os) =
        ground (arith, e, n) in
      subst (λ q. IsStored fd content [] c q.0 q.1) (sym same)
        (record { at_end = rw (append-nil content) h; good = g; counted = refl })
  inflate_loop-IsStored (suc m) fd z (b ∷ input) content _ c os (ended _ _ _ e n) l g h =
      let r = zlib.inflate z (b ∷ input) in
      let (c', os') = store_inflated fd r.output c os in
      let k = store_inflated-IsStored fd content r.output c os g h in
      let last : inflate_loop zlib m fd r.next r.avail_in c' os'
          ≡ (record c' { zs = some r.next }, os') =
        rw n (inflate_loop-nil m fd r.next c' os') in
      let same : inflate_loop zlib (suc m) fd z (b ∷ input) c os
          ≡ (record c' { zs = some r.next }, os') =
        ground (arith, e, n, k.good, last) in
      subst (λ q. IsStored fd content r.output c q.0 q.1) (sym same)
        (record { at_end = k.at_end; good = k.good; counted = k.counted })
  inflate_loop-IsStored (suc m) fd z (b ∷ input) content _ c os (more _ _ _ out e s) l g h =
      let r = zlib.inflate z (b ∷ input) in
      let (c', os') = store_inflated fd r.output c os in
      let k = store_inflated-IsStored fd content r.output c os g h in
      let next =
        inflate_loop-IsStored m fd r.next r.avail_in (content ++ r.output) out c' os' s
          (omega (arith, zlib.progress z (b ∷ input) e, l)) k.good k.at_end in
      let same : inflate_loop zlib (suc m) fd z (b ∷ input) c os
          ≡ inflate_loop zlib m fd r.next r.avail_in c' os' =
        ground (arith, e, k.good) in
      subst (λ q. IsStored fd content (r.output ++ out) c q.0 q.1) (sym same)
        (record {
          at_end = rw (← append_assoc content r.output out) next.at_end;
          good = next.good;
          counted = omega (arith, next.counted, k.counted, length-append r.output out);
        })

  note_first_kept :
      (at : ℕ) (c : Cbo Z)
      → let d = note_first at c in
        (d.zfail ≡ c.zfail)
        × (d.zs ≡ c.zs)
        × (d.unzip ≡ c.unzip)
        × (d.bytes_written ≡ c.bytes_written)
  unfolding note_first
  note_first_kept at c = (ground arith, ground arith, ground arith, ground arith)

  -- A piece of a compressed body, while an initialised stream is being inflated without an earlier
  -- failure and the calls of `inflate` give no error: on_body reports success, and behind the end of
  -- the file stands what these calls put out, counted modulo 2^64, without what the one put out that
  -- ended the stream before the piece.
  pub on_body-Stored :
      (at fd : ℕ) (bytes content out : List ℕ) (z : Z) (c : Cbo Z) (os : Os)
      → c.fd ≡ some fd
      → c.unzip ≡ true
      → c.zfail ≡ false
      → c.zs ≡ some z
      → AtEnd fd content os
      → Stored z bytes out
      → let (c', os', ok) = on_body zlib at bytes c os in
        (ok ≡ true)
        × AtEnd fd (content ++ out) os'
        × (add64 c'.bytes_written 0 ≡ add64 c.bytes_written (length out))
  unfolding on_body store_compressed inflate_all
  on_body-Stored at fd [] content _ z c os f u g i h (used_up _) =
      (ground (arith, f), rw (append-nil content) (ground (arith, f, h)), ground (arith, f))
  on_body-Stored at fd (b ∷ bytes) content out z c os f u g i h s =
      let d = note_first at c in
      let kept = note_first_kept at c in
      let k =
        inflate_loop-IsStored (suc (zlib.left z (b ∷ bytes))) fd z (b ∷ bytes) content out d os s
          (omega arith) (kept.0 ∙ g) h in
      let same : on_body zlib at (b ∷ bytes) c os ≡ (
        (inflate_loop zlib (suc (zlib.left z (b ∷ bytes))) fd z (b ∷ bytes) d os).0,
        (inflate_loop zlib (suc (zlib.left z (b ∷ bytes))) fd z (b ∷ bytes) d os).1,
        true,
      ) =
        ground (arith, f, kept.2 ∙ u, kept.0 ∙ g, kept.1 ∙ i) in
      rw same (refl, k.at_end, k.counted ∙ ap (λ n. add64 n (length out)) kept.3)
