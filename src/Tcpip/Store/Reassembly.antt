-- ===== src/Tcpip/Store/Reassembly.antt =====
-- What the transcript file holds after the segments of a stream arrive in any order.
use tcpflow.Tcpip.Store.Stream.{
  slice, length-slice, take-slice, Agrees, write_slice_in, write_slice_keeps, Segment, InWindow,
  AllInWindow, Covered, Within, Within-limit, at_place, delta_ahead, delta_behind, place_ahead,
  place_behind, bytes-seek_cur,
}
use tcpflow.Tcpip.Store.Sequence.{
  store_placed_seek, move_by-InStep, store_placed_keepalive, write_packet-InStep, open_up_zero,
  store_placed_here, Reaches, IsInt32, store_packet_placed, limit_length_le, InStep,
}
use tcpflow.Base.{
  ℕ, ◌+◌, ◌-◌, ◌%◌, ◌^◌, ◌≤◌, ◌<◌, ◌≡◌, refl, sym, subst, ◌∙◌, inl, inr, true, List, [], ◌∷◌, arith,
  dec_lt, ℕ_discrete, length, take, Bool-cases,
}
use tcpflow.Base.Int.{ℤ, pos, negsuc}
use tcpflow.Base.Word.{word64, add64, u64, u32}
use tcpflow.Tcpip.File.{seek_cur, write, OpenFile, write_at}
use tcpflow.Tcpip.Store.{
  store_placed, is_keepalive, move_by, write_packet, store_packet, TimeVal, Options, Tcpip,
  sequence_delta, ReconSet, limit_length,
}

module _ {S : Type 0} (R : ReconSet S) (opt : Options) (ts : TimeVal) where
  bytes-write_packet :
      (offset wlength : ℕ) (payload : List ℕ) (t : Tcpip S) (o : OpenFile)
      → (write_packet R opt ts offset wlength payload t o).1.bytes
        ≡ write_at o.offset (take wlength payload) o.bytes
  unfolding write_packet write seek_cur
  bytes-write_packet offset wlength payload t o = ground arith

  isn-write_packet :
      (offset wlength : ℕ) (payload : List ℕ) (t : Tcpip S) (o : OpenFile)
      → (write_packet R opt ts offset wlength payload t o).0.isn ≡ t.isn
  unfolding write_packet
  isn-write_packet offset wlength payload t o = refl

  pos-write_packet :
      (offset wlength : ℕ) (payload : List ℕ) (t : Tcpip S) (o : OpenFile)
      → (write_packet R opt ts offset wlength payload t o).0.pos ≡ add64 t.pos (length payload)
  unfolding write_packet
  pos-write_packet offset wlength payload t o = refl

  -- What one segment leaves: the flow behind the segment, and the file agreeing with the stream
  -- wherever it did and on the segment.
  pub record Received (stream : ℕ → ℕ) (s : Segment) (t : Tcpip S) (o : OpenFile)
      (out : Tcpip S × OpenFile) : Type 0 where
    pub in_step : InStep out.0 out.1
    pub same_isn : out.0.isn ≡ t.isn
    pub behind : out.0.pos ≡ s.at + s.len
    pub keeps : (i : ℕ) → Agrees stream o.bytes i → Agrees stream out.1.bytes i
    pub adds :
        (i : ℕ)
        → Within opt.max_bytes_per_flow i
        → s.at ≤ i
        → i < s.at + s.len
        → (i + 1 ≡ t.pos → Within opt.max_bytes_per_flow i → Agrees stream o.bytes i)
        → Agrees stream out.1.bytes i

  -- One segment through the code, as process_tcp hands it on: by its sequence number.
  unfoldable pub receive : (ℕ → ℕ) → ℕ → Segment → Tcpip S × OpenFile → Tcpip S × OpenFile
  receive stream isn s (t, o) =
      store_packet R opt ts (slice stream s.at s.len) (sequence_delta ((isn + 1 + s.at) % u32) t) t
        o

  unfoldable pub receive_all : (ℕ → ℕ) → ℕ → List Segment → Tcpip S × OpenFile → Tcpip S × OpenFile
  receive_all stream isn [] q = q
  receive_all stream isn (s ∷ ss) q = receive_all stream isn ss (receive stream isn s q)

  -- Written where the flow stands.
  write_packet-Received :
      (stream : ℕ → ℕ) (s : Segment) (t u : Tcpip S) (o q : OpenFile)
      → InStep u q
      → u.isn ≡ t.isn
      → u.pos ≡ s.at
      → q.bytes ≡ o.bytes
      → s.at < 2 ^ 61
      → s.len < 2 ^ 31
      → let out =
          write_packet R opt ts s.at
            (limit_length opt.max_bytes_per_flow s.at s.len)
            (slice stream s.at s.len)
            u
            q in
        InStep out.0 out.1 → Received stream s t o out
  write_packet-Received stream s t u o q v same here bytes small short w =
      let m = opt.max_bytes_per_flow in
      let wl = limit_length m s.at s.len in
      let fits : limit_length m s.at s.len ≤ s.len =
        limit_length_le m s.at s.len (omega arith) (omega arith) in
      let place_eq : q.offset ≡ s.at = v.position ∙ here in
      let content = bytes-write_packet s.at wl (slice stream s.at s.len) u q in
      record {
        in_step = w;
        same_isn = isn-write_packet s.at wl (slice stream s.at s.len) u q ∙ same;
        behind = omega (
          arith,
          pos-write_packet s.at wl (slice stream s.at s.len) u q,
          length-slice stream s.at s.len,
        );
        keeps = λ i a.
            rw (content, place_eq, bytes, take-slice stream s.at s.len wl fits)
              (write_slice_keeps stream s.at wl i o.bytes a);
        adds = λ i within from to last.
            rw (content, place_eq, bytes, take-slice stream s.at s.len wl fits)
              (write_slice_in stream s.at wl i o.bytes from
                (Within-limit m s.at s.len i within short small from to));
      }

  -- A keepalive repeats the byte before the position.
  kept :
      (stream : ℕ → ℕ) (s : Segment) (t : Tcpip S) (o : OpenFile)
      → InStep t o
      → (s.at + 1 ≡ t.pos) × (s.len ≡ 1)
      → Received stream s t o (t, o)
  kept stream s t o v a = record {
    in_step = v;
    same_isn = refl;
    behind = omega arith;
    keeps = λ i h. h;
    adds = λ i within from to last. last (omega arith) within;
  }

  placed_Received :
      (stream : ℕ → ℕ) (s : Segment) (delta : ℤ) (t : Tcpip S) (o : OpenFile)
      → InStep t o
      → t.pos < 2 ^ 62
      → IsInt32 delta
      → Reaches t.pos delta
      → s.at < 2 ^ 61
      → s.len < 2 ^ 31
      → (t.pos + word64 delta) % u64 ≡ s.at
      → (is_keepalive (length (slice stream s.at s.len)) delta ≡ true
          → (s.at + 1 ≡ t.pos) × (s.len ≡ 1))
      → Received stream s t o (
          store_placed R opt ts
            (at_place opt.max_bytes_per_flow s.at s.len)
            (slice stream s.at s.len)
            delta
            t
            o)
  unfolding move_by seek_cur
  placed_Received stream s delta t o v small i r far short at alive =
      let m = opt.max_bytes_per_flow in
      let payload = slice stream s.at s.len in
      let p = at_place m s.at s.len in
      let n = length-slice stream s.at s.len in
      let fits : limit_length m s.at s.len ≤ s.len =
        limit_length_le m s.at s.len (omega arith) (omega arith) in
      elim (ℕ_discrete s.at t.pos) [
        | yes e ↦
            rw
              (
                store_placed_here R opt ts p payload delta t o (rw (open_up_zero t o) e),
                open_up_zero t o,
              )
              (write_packet-Received stream s t t o o v refl (sym e) refl far short (
                write_packet-InStep R opt ts s.at (limit_length m s.at s.len) payload t o v
                  (omega arith) (omega (arith, n)) (omega (arith, n, fits))))
        | no ne ↦ elim (Bool-cases (is_keepalive (length payload) delta)) [
          | inl k ↦
              rw (store_placed_keepalive R opt ts p payload delta t o refl ne k)
                (kept stream s t o v (alive k))
          | inr k ↦
              let w = move_by-InStep delta t o v small i r in
              rw (store_placed_seek R opt ts p payload delta t o refl ne k) (
                write_packet-Received stream s t (move_by delta t o).0 o (move_by delta t o).1 w
                  refl at (bytes-seek_cur delta o) far short
                  (write_packet-InStep R opt ts s.at (limit_length m s.at s.len) payload
                    (move_by delta t o).0 (move_by delta t o).1 w (omega arith) (omega (arith, n))
                    (omega (arith, n, fits))))
        ]
      ]

  -- One segment that begins in the window.
  receive-Received :
      (stream : ℕ → ℕ) (s : Segment) (t : Tcpip S) (o : OpenFile)
      → InStep t o
      → t.pos < 2 ^ 62
      → InWindow t.pos s
      → Received stream s t o (receive stream t.isn s (t, o))
  unfolding receive is_keepalive
  receive-Received stream s t o v small w = elim (dec_lt s.at t.pos) [
    | yes back ↦
        let d = delta_behind t o s.at v back w.1 in
        let p = place_behind opt.max_bytes_per_flow t s.len s.at back small in
        rw
          (
            d,
            store_packet_placed R opt ts (slice stream s.at s.len) (negsuc (t.pos - s.at - 1)) t o
                (at_place opt.max_bytes_per_flow s.at s.len)
                (omega (arith, length-slice stream s.at s.len))
                (rw (length-slice stream s.at s.len) p),
          )
          (placed_Received stream s (negsuc (t.pos - s.at - 1)) t o v small (omega arith)
            (omega arith) w.4 w.3 (omega arith)
            (λ k. ground (arith, length-slice stream s.at s.len)))
    | no ahead ↦
        let d = delta_ahead t o s.at v (omega arith) w.0 in
        let p = place_ahead opt.max_bytes_per_flow t s.len s.at (omega arith) w.4 in
        rw
          (
            d,
            store_packet_placed R opt ts (slice stream s.at s.len) (pos (s.at - t.pos)) t o
                (at_place opt.max_bytes_per_flow s.at s.len)
                (omega (arith, length-slice stream s.at s.len))
                (rw (length-slice stream s.at s.len) p),
          )
          (placed_Received stream s (pos (s.at - t.pos)) t o v small (omega arith) tt w.4 w.3
            (omega arith) (λ k. ground arith))
  ]

  -- Segments of a stream that arrive in any order, each beginning within 2^31 of the end of the one
  -- before, leave the flow in step, and the file agreeing with the stream at every byte that it
  -- agreed on before and at every byte that a segment covers, up to the limit of bytes per flow.
  -- The flow is in step at the start, and the byte before its position agrees with the stream.
  pub receive_all-Agrees :
      (stream : ℕ → ℕ) (isn : ℕ) (ss : List Segment) (t : Tcpip S) (o : OpenFile)
      → InStep t o
      → t.isn ≡ isn
      → t.pos < 2 ^ 62
      → AllInWindow t.pos ss
      → ((i : ℕ) → i + 1 ≡ t.pos → Within opt.max_bytes_per_flow i → Agrees stream o.bytes i)
      → let (t', o') = receive_all stream isn ss (t, o) in
        InStep t' o'
        × ((i : ℕ) → Agrees stream o.bytes i → Agrees stream o'.bytes i)
        × ((i : ℕ) → Within opt.max_bytes_per_flow i → Covered i ss → Agrees stream o'.bytes i)
  unfolding receive_all
  receive_all-Agrees stream isn [] t o v same small w last = (v, λ i a. a, λ i b c. absurd c)
  receive_all-Agrees stream isn (s ∷ ss) t o v same small w last =
      let out = receive stream isn s (t, o) in
      let r : Received stream s t o (receive stream isn s (t, o)) =
        subst (λ k. Received stream s t o (receive stream k s (t, o))) same
          (receive-Received stream s t o v small w.0) in
      let in_window : AllInWindow out.0.pos ss = subst (λ e. AllInWindow e ss) (sym r.behind) w.1 in
      let rest =
        receive_all-Agrees stream isn ss out.0 out.1 r.in_step (r.same_isn ∙ same)
          (omega (arith, r.behind, w.0)) in_window
          (λ i e b.
            r.adds i b (omega (arith, r.behind, w.0)) (omega (arith, r.behind, w.0)) (last i)) in
      (
        rest.0,
        λ i a. rest.1 i (r.keeps i a),
        λ i b c. elim c [ inl h ↦ rest.1 i (r.adds i b h.0 h.1 (last i)) | inr h ↦ rest.2 i b h ],
      )
