-- ===== src/Http/Headers/Fragments.antt =====
-- src/scan_http.cpp: headers that the parser hands over in fragments.
use tcpflow.Base.{
  ℕ, ◌≡◌, subst, ◌⊎◌, inl, inr, List, [], ◌∷◌, ◌++◌, map, append_assoc, append-nil, arith,
}
use mathlib.Core.List.{map-append}
use tcpflow.Base.Maps.{insert}
use tcpflow.Flow.Addr.{same_bytes}
use tcpflow.Mime.{to_lower}
use tcpflow.Http.{nothing, field, value, Cbo}
use tcpflow.Http.Headers.{add_header, on_header_field, on_header_value, end_headers}

-- A header as the parser hands it over: one fragment at least of its name and of its value.
pub record Fragments : Type 0 where
  pub name : List ℕ
  pub more_name : List (List ℕ)
  pub text : List ℕ
  pub more_text : List (List ℕ)

abbrev pub joined : List (List ℕ) → List ℕ
joined [] = []
joined (f ∷ fs) = f ++ joined fs

-- The headers put together, in order: a later one replaces an earlier one of its name.
abbrev pub collect : List Fragments → List (List ℕ × List ℕ) → List (List ℕ × List ℕ)
collect [] m = m
collect (h ∷ hs) m = collect hs (
    insert same_bytes (map to_lower (h.name ++ joined h.more_name)) (h.text ++ joined h.more_text)
      m)

module _ {Z : Type 0} where
  abbrev pub fields : List (List ℕ) → Cbo Z → Cbo Z
  fields [] c = c
  fields (f ∷ fs) c = fields fs (on_header_field f c)

  abbrev pub values : List (List ℕ) → Cbo Z → Cbo Z
  values [] c = c
  values (v ∷ vs) c = values vs (on_header_value v c)

  -- The callbacks for one header, and for a list of headers.
  abbrev pub receive_header : Fragments → Cbo Z → Cbo Z
  receive_header h c =
      values h.more_text (on_header_value h.text (fields h.more_name (on_header_field h.name c)))

  abbrev pub receive_headers : List Fragments → Cbo Z → Cbo Z
  receive_headers [] c = c
  receive_headers (h ∷ hs) c = receive_headers hs (receive_header h c)

  -- In the middle of a name, of a value, and between two headers: the name and the value so far,
  -- and the headers with the one that is complete in the buffers.
  abbrev InName : Cbo Z → List ℕ → List (List ℕ × List ℕ) → Type 0
  InName c f m = (c.last_on_header ≡ field) × (c.header_field ≡ f) × (c.headers ≡ m)

  abbrev InValue : Cbo Z → List ℕ → List ℕ → List (List ℕ × List ℕ) → Type 0
  InValue c f v m =
      (c.last_on_header ≡ value) × (c.header_field ≡ f) × (c.header_value ≡ v) × (c.headers ≡ m)

  abbrev pub Between : Cbo Z → List (List ℕ × List ℕ) → Type 0
  Between c m =
      ((c.last_on_header ≡ nothing) × (c.headers ≡ m))
      ⊎ ((c.last_on_header ≡ value)
          × (insert same_bytes c.header_field c.header_value c.headers ≡ m))

  on_header_field-starts :
      (g : List ℕ) (c : Cbo Z) (m : List (List ℕ × List ℕ))
      → Between c m
      → InName (on_header_field g c) (map to_lower g) m
  unfolding on_header_field
  on_header_field-starts g c m h = ground arith

  on_header_field-continues :
      (g f : List ℕ) (c : Cbo Z) (m : List (List ℕ × List ℕ))
      → InName c f m
      → InName (on_header_field g c) (f ++ map to_lower g) m
  unfolding on_header_field
  on_header_field-continues g f c m h = ground arith

  fields-InName :
      (fs : List (List ℕ)) (f : List ℕ) (c : Cbo Z) (m : List (List ℕ × List ℕ))
      → InName c f m
      → InName (fields fs c) (f ++ map to_lower (joined fs)) m
  fields-InName [] f c m h = rw append-nil h
  fields-InName (g ∷ fs) f c m h =
      let e : (f ++ map to_lower g) ++ map to_lower (joined fs)
          ≡ f ++ map to_lower (g ++ joined fs) =
        simp (map-append, append_assoc) in
      subst (λ q. InName (fields fs (on_header_field g c)) q m) e
        (fields-InName fs (f ++ map to_lower g) (on_header_field g c) m
          (on_header_field-continues g f c m h))

  on_header_value-starts :
      (v f : List ℕ) (c : Cbo Z) (m : List (List ℕ × List ℕ))
      → InName c f m
      → InValue (on_header_value v c) f v m
  unfolding on_header_value
  on_header_value-starts v f c m h = ground arith

  on_header_value-continues :
      (u v f : List ℕ) (c : Cbo Z) (m : List (List ℕ × List ℕ))
      → InValue c f v m
      → InValue (on_header_value u c) f (v ++ u) m
  unfolding on_header_value
  on_header_value-continues u v f c m h = ground arith

  values-InValue :
      (vs : List (List ℕ)) (v f : List ℕ) (c : Cbo Z) (m : List (List ℕ × List ℕ))
      → InValue c f v m
      → InValue (values vs c) f (v ++ joined vs) m
  values-InValue [] v f c m h = rw append-nil h
  values-InValue (u ∷ vs) v f c m h =
      subst (λ q. InValue (values vs (on_header_value u c)) f q m) (append_assoc v u (joined vs))
        (values-InValue vs (v ++ u) f (on_header_value u c) m
          (on_header_value-continues u v f c m h))

  InValue-Between :
      (f v : List ℕ) (c : Cbo Z) (m : List (List ℕ × List ℕ))
      → InValue c f v m
      → Between c (insert same_bytes f v m)
  InValue-Between f v c m h = inr (h.0, ground arith)

  receive_header-Between :
      (h : Fragments) (c : Cbo Z) (m : List (List ℕ × List ℕ))
      → Between c m
      → Between (receive_header h c) (collect (h ∷ []) m)
  receive_header-Between h c m b =
      let named = on_header_field h.name c in
      let e : map to_lower h.name ++ map to_lower (joined h.more_name)
          ≡ map to_lower (h.name ++ joined h.more_name) =
        simp map-append in
      let n =
        subst (λ q. InName (fields h.more_name named) q m) e
          (fields-InName h.more_name (map to_lower h.name) named m
            (on_header_field-starts h.name c m b)) in
      let name = map to_lower (h.name ++ joined h.more_name) in
      let c' = fields h.more_name named in
      InValue-Between name (h.text ++ joined h.more_text) (receive_header h c) m (
        values-InValue h.more_text h.text name (on_header_value h.text c') m
          (on_header_value-starts h.text name c' m n))

  receive_headers-Between :
      (hs : List Fragments) (c : Cbo Z) (m : List (List ℕ × List ℕ))
      → Between c m
      → Between (receive_headers hs c) (collect hs m)
  receive_headers-Between [] c m b = b
  receive_headers-Between (h ∷ hs) c m b =
      receive_headers-Between hs (receive_header h c) (collect (h ∷ []) m)
        (receive_header-Between h c m b)

  -- However the parser cuts the headers of a message into fragments, one at least for a name and
  -- one for a value, the map holds the names in lower case with their whole values, a later header
  -- replacing an earlier one of its name. The object is fresh, or its last message is complete.
  pub headers-end_headers :
      (hs : List Fragments) (c : Cbo Z)
      → c.last_on_header ≡ nothing
      → c.headers ≡ []
      → (end_headers (receive_headers hs c)).headers ≡ collect hs []
  unfolding end_headers add_header
  headers-end_headers hs c l e =
      let b = receive_headers-Between hs c [] (inl (l, e)) in ground arith
