-- ===== src/Http/Body.antt =====
-- src/scan_http.cpp: `on_body`, which writes a piece of a body, inflated if it is compressed.
pub mod Writes
pub mod Inflating
use tcpflow.Base.{
  ℕ, zero, suc, ◌+◌, ◌-◌, ◌*◌, ◌/◌, ◌%◌, ◌^◌, ◌≤◌, ◌<◌, min, max, ◌≡◌, refl, sym, ap, ap₂, subst,
  ◌∙◌, fun_ext, ◌≢◌, ◌↔◌, ◌⊎◌, inl, inr, Bool, true, false, not, ◌&&◌, ◌||◌, Option, none, some,
  List, [], ◌∷◌, ◌++◌, map, append_assoc, append-nil, arith, dec_lt, dec_le, ℕ_discrete, length,
  get_elem?, set, length-append, length-set, get_elem?-set_self, get_elem?-set_ne, get_or, take,
  drop, replicate, take-append-drop, length-take, length-drop, length-replicate, length-map, ltb,
  leb, ◌==◌, if◌then◌else◌, ltb→lt, lt→ltb, leb→le, ==_iff, tests, Bool-cases, Option-cases,
}
use tcpflow.Base.Word.{add64}
use tcpflow.Tcpip.File.{write}
use tcpflow.Demux.Os.{Os, get_open, put_open}
use tcpflow.Http.{Zlib, Inflated, z_ok, z_stream_end, z_error, byte_run, HttpSettings, Cbo}

-- `write` to a descriptor; `none` is an error. A write to a regular file is complete, so the loop
-- around it makes one call.
unfoldable pub write_fd : ℕ → List ℕ → Os → Option Os
write_fd fd bytes os = elim (get_open fd os) [
  | none ↦ none
  | some o ↦ some (put_open fd (write bytes o) os)
]

module _ {Z : Type 0} where
  -- The first piece after the headers opens the report of the object; `at` is its place in the
  -- buffer.
  unfoldable pub note_first : (at : ℕ) → Cbo Z → Cbo Z
  note_first at c =
      if c.first_body
      then record c { xml_fo = c.xml_fo ++ byte_run at c.output_path ∷ []; first_body = false }
      else c

  -- A piece that is stored as it is; the result is the one of `on_body`.
  unfoldable pub store_plain : ℕ → List ℕ → Cbo Z → Os → Cbo Z × Os × Bool
  unfolding write_fd
  store_plain fd bytes c os = elim (write_fd fd bytes os) [
    | none ↦ (c, os, false)
    | some os' ↦ (record c { bytes_written = add64 c.bytes_written (length bytes) }, os', true)
  ]

  -- What follows a call of `inflate` that succeeded.
  unfoldable pub store_inflated : ℕ → List ℕ → Cbo Z → Os → Cbo Z × Os
  unfolding write_fd
  store_inflated fd bytes c os = elim (write_fd fd bytes os) [
    | none ↦ (record c { zfail = true }, os)
    | some os' ↦ (record c { bytes_written = add64 c.bytes_written (length bytes) }, os')
  ]

module _ {Z : Type 0} (zlib : Zlib Z) where
  -- The loop over the input that is left.
  unfoldable pub inflate_loop : ℕ → ℕ → Z → List ℕ → Cbo Z → Os → Cbo Z × Os
  unfolding store_inflated
  inflate_loop fuel fd z [] c os = (record c { zs = some z }, os)
  inflate_loop zero fd z (b ∷ input) c os = (record c { zs = some z }, os)
  inflate_loop (suc fuel) fd z (b ∷ input) c os =
      let r = zlib.inflate z (b ∷ input) in
      let (c', os') = store_inflated fd r.output c os in
      let rest = inflate_loop fuel fd r.next r.avail_in c' os' in
      let stored = if c'.zfail then (record c' { zs = some r.next }, os') else rest in
      elim r.result [
        | z_ok ↦ stored
        | z_stream_end ↦
            if ltb 0 (length r.avail_in) then (record c { zs = some r.next }, os) else stored
        | z_error ↦ (record c { zs = some r.next; zfail = true }, os)
      ]

  unfoldable pub inflate_all : ℕ → Z → List ℕ → Cbo Z → Os → Cbo Z × Os
  unfolding inflate_loop
  inflate_all fd z input c os = inflate_loop (suc (zlib.left z input)) fd z input c os

  -- The initialisation, unless it is done, and the loop.
  unfoldable pub store_compressed : ℕ → List ℕ → Cbo Z → Os → Cbo Z × Os
  unfolding inflate_all
  store_compressed fd bytes c os = if c.zfail then (c, os) else elim c.zs [
    | some z ↦ inflate_all fd z bytes c os
    | none ↦ elim (zlib.inflate_init bytes) [
      | none ↦ (record c { zfail = true }, os)
      | some z ↦ inflate_all fd z bytes c os
    ]
  ]

  -- `on_body` of the bytes at a place of the buffer; the result is false for -1.
  unfoldable pub on_body : (at : ℕ) → List ℕ → Cbo Z → Os → Cbo Z × Os × Bool
  unfolding note_first store_plain store_compressed
  on_body at bytes c os = elim c.fd [
    | none ↦ (c, os, false)
    | some fd ↦
        let d = note_first at c in
        let (d', os') = store_compressed fd bytes d os in
        if length bytes == 0
        then (c, os, true)
        else if d.unzip
        then (d', os', true)
        else store_plain fd bytes d os
  ]
