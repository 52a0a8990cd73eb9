-- ===== src/Http/Body/Writes.antt =====
-- src/scan_http.cpp: what the pieces of a body leave in its file.
use tcpflow.Base.{
  ℕ, ◌+◌, ◌≡◌, refl, sym, ap, ◌∙◌, inl, inr, Bool, true, false, some, List, [], ◌∷◌, ◌++◌,
  append_assoc, append-nil, arith, length, length-append, ◌==◌, if◌then◌else◌, Option-cases,
}
use tcpflow.Base.Maps
use tcpflow.Base.Word.{add64}
use tcpflow.Tcpip.File.{OpenFile, write, write_at, write_from, overlay}
use tcpflow.Demux.Os.{Os, get_open, put_open, path_eq, file_bytes}
use tcpflow.Flow.Addr.{same_bytes_iff}
use tcpflow.Http.{Zlib, Cbo}
use tcpflow.Http.Body.{write_fd, on_body, store_plain, note_first}

overlay-nil : (bs : List ℕ) → overlay bs [] ≡ bs
overlay-nil [] = refl
overlay-nil (b ∷ bs) = ap (◌∷◌ b) (overlay-nil bs)

write_from-end : (f bs : List ℕ) → write_from (length f) bs f ≡ f ++ bs
write_from-end [] bs = overlay-nil bs
write_from-end (x ∷ f) bs = ap (◌∷◌ x) (write_from-end f bs)

write_at-end : (f bs : List ℕ) → write_at (length f) bs f ≡ f ++ bs
unfolding write_at
write_at-end f [] = sym (append-nil f)
write_at-end f (b ∷ bs) = write_from-end f (b ∷ bs)

get_open-put_open :
    (fd : ℕ) (o o' : OpenFile) (os : Os)
    → get_open fd os ≡ some o
    → get_open fd (put_open fd o' os) ≡ some o'
unfolding get_open put_open file_bytes
get_open-put_open fd o o' os h = elim (Option-cases (os.descs fd)) [
  | inl e ↦ absurd (ground (arith, e))
  | inr (d, e) ↦ ground (
    arith,
    e,
    Maps.find-insert path_eq d.name d.name o'.bytes os.files,
    same_bytes_iff d.name d.name,
  )
]

-- The file of a descriptor ends at its position.
abbrev pub AtEnd : ℕ → List ℕ → Os → Type 0
AtEnd fd content os = get_open fd os ≡ some (record { bytes = content; offset = length content })

pub write_fd-end :
    (fd : ℕ) (content bytes : List ℕ) (os : Os)
    → AtEnd fd content os
    → (os' : Os) × (write_fd fd bytes os ≡ some os') × AtEnd fd (content ++ bytes) os'
unfolding write_fd write
write_fd-end fd content bytes os h =
    let o : OpenFile = record { bytes = content; offset = length content } in
    let o' = write bytes o in
    let same : o' ≡ record { bytes = content ++ bytes; offset = length (content ++ bytes) } =
      ground (arith, write_at-end content bytes, length-append content bytes) in
    (put_open fd o' os, ground arith, get_open-put_open fd o o' os h ∙ ap some same)

module _ {Z : Type 0} (zlib : Zlib Z) where
  -- The pieces of a body, each at its place of the buffer; the last result is false once a call
  -- returned -1.
  pub receive_body : List (ℕ × List ℕ) → Cbo Z → Os → Cbo Z × Os × Bool
  receive_body [] c os = (c, os, true)
  receive_body ((at, bytes) ∷ pieces) c os =
      let (c', os', ok) = on_body zlib at bytes c os in
      let rest = receive_body pieces c' os' in if ok then rest else (c', os', false)

  abbrev pub pieces_joined : List (ℕ × List ℕ) → List ℕ
  pieces_joined [] = []
  pieces_joined ((at, bytes) ∷ pieces) = bytes ++ pieces_joined pieces

  -- A piece of a body that is not compressed.
  on_body_plain :
      (at fd : ℕ) (bytes content : List ℕ) (c : Cbo Z) (os : Os)
      → c.fd ≡ some fd
      → c.unzip ≡ false
      → AtEnd fd content os
      → let (c', os', ok) = on_body zlib at bytes c os in
        (ok ≡ true)
        × (c'.fd ≡ some fd)
        × (c'.unzip ≡ false)
        × (c'.output_path ≡ c.output_path)
        × (c'.bytes_written
            ≡ (if length bytes == 0 then c.bytes_written else add64 c.bytes_written (length bytes)))
        × AtEnd fd (content ++ bytes) os'
  unfolding on_body note_first store_plain
  on_body_plain at fd [] content c os f u h = (
    ground arith,
    ground arith,
    ground arith,
    ground arith,
    ground arith,
    rw (append-nil content) (ground arith),
  )
  on_body_plain at fd (b ∷ bs) content c os f u h =
      let (os', w, e) = write_fd-end fd content (b ∷ bs) os h in
      (
        ground (arith, w),
        ground (arith, w),
        ground (arith, w),
        ground (arith, w),
        ground (arith, w),
        ground (arith, w, e),
      )

  -- The pieces of a body that is not compressed are written to its file behind one another, and
  -- counted, modulo 2^64; no call fails. The file is open, and its position is its end.
  pub receive_body_plain :
      (pieces : List (ℕ × List ℕ)) (fd : ℕ) (content : List ℕ) (c : Cbo Z) (os : Os)
      → c.fd ≡ some fd
      → c.unzip ≡ false
      → AtEnd fd content os
      → let (c', os', ok) = receive_body pieces c os in
        (ok ≡ true)
        × (c'.fd ≡ some fd)
        × AtEnd fd (content ++ pieces_joined pieces) os'
        × (add64 c'.bytes_written 0 ≡ add64 c.bytes_written (length (pieces_joined pieces)))
  unfolding receive_body
  receive_body_plain [] fd content c os f u h = (refl, f, rw (append-nil content) h, refl)
  receive_body_plain ((at, bytes) ∷ pieces) fd content c os f u h =
      let p = on_body_plain at fd bytes content c os f u h in
      let c' = (on_body zlib at bytes c os).0 in
      let os' = (on_body zlib at bytes c os).1 in
      let rest = receive_body_plain pieces fd (content ++ bytes) c' os' p.1 p.2 p.5 in
      let n = length (pieces_joined pieces) in
      let counted : add64 c'.bytes_written n ≡ add64 c.bytes_written (length bytes + n) =
        ground (arith, p.4) in
      rw p.0 (
        rest.0,
        rest.1,
        rw (← append_assoc content bytes (pieces_joined pieces)) rest.2,
        rest.3
            ∙ counted
            ∙ ap (add64 c.bytes_written) (sym (length-append bytes (pieces_joined pieces))),
      )
