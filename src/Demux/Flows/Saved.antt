-- ===== src/Demux/Flows/Saved.antt =====
-- The saved flows of tcpdemux.cpp: how many there are, and what the map of them points to.
use tcpflow.Base.{
  ℕ, suc, ◌+◌, ◌≤◌, ◌≡◌, refl, sym, ap, subst, ◌∙◌, ◌⊎◌, inl, inr, some, List, [], ◌∷◌, ◌++◌, arith,
  length, length-append, ltb, Bool-cases,
}
use tcpflow.Base.Maps.{find, insert, erase, find-insert, find-erase}
use tcpflow.Flow.{FlowAddr, same_addr, flow_addr_eq}
use tcpflow.Flow.Addr.{same_addr_iff}
use tcpflow.Tcpip.State.{Tcpip}
use tcpflow.Demux.State.{Demux, SavedFlow}
use tcpflow.Demux.Flows.{drop_oldest, save_flow}

-- A saved flow is in the vector.
abbrev pub Holds : SavedFlow → List SavedFlow → Type 0
Holds f [] = ⊥
Holds f (g ∷ fs) = (f ≡ g) ⊎ Holds f fs

Holds-append : (f : SavedFlow) (fs gs : List SavedFlow) → Holds f fs → Holds f (fs ++ gs)
Holds-append f (g ∷ fs) gs (inl e) = inl e
Holds-append f (g ∷ fs) gs (inr h) = inr (Holds-append f fs gs h)
Holds-append f [] gs h = elim h [ ]

Holds-last : (f : SavedFlow) (fs : List SavedFlow) → Holds f (fs ++ f ∷ [])
Holds-last f [] = inl refl
Holds-last f (g ∷ fs) = inr (Holds-last f fs)

-- The map leads only to saved flows that the vector holds, under their own address; the vector
-- holds at most one flow more than the limit.
pub record SavedIsValid {S : Type 0} (limit : ℕ) (d : Demux S) : Type 0 where
  pub alive :
      (a : FlowAddr) (f : SavedFlow)
      → find same_addr a d.saved_flow_map ≡ some f
      → Holds f d.saved_flows × (f.addr ≡ a)
  pub bounded : length d.saved_flows ≤ limit + 1

drop_alive :
    (a : FlowAddr) (f g : SavedFlow) (fs : List SavedFlow) (m : List (FlowAddr × SavedFlow))
    → (find same_addr a m ≡ some f → Holds f (g ∷ fs) × (f.addr ≡ a))
    → find same_addr a (erase same_addr g.addr m) ≡ some f
    → Holds f fs × (f.addr ≡ a)
drop_alive a f g fs m h e =
    let erased = sym (find-erase flow_addr_eq g.addr a m) ∙ e in
    elim (Bool-cases (same_addr g.addr a)) [
      | inl same ↦ let x = rw same at erased in cc
      | inr other ↦
          let found = rw other at erased in
          let (held, at) = h found in
          elim held [
            | inl eq ↦
                let same =
                  (same_addr_iff g.addr a).1 (ap (λ (x : SavedFlow). x.addr) (sym eq) ∙ at) in
                absurd (cc (sym other ∙ same))
            | inr rest ↦ (rest, at)
          ]
    ]

insert_alive :
    (a : FlowAddr) (f g : SavedFlow) (fs : List SavedFlow) (m : List (FlowAddr × SavedFlow))
    → (find same_addr a m ≡ some f → Holds f fs × (f.addr ≡ a))
    → find same_addr a (insert same_addr g.addr g m) ≡ some f
    → Holds f (fs ++ g ∷ []) × (f.addr ≡ a)
insert_alive a f g fs m h e =
    let found = sym (find-insert flow_addr_eq g.addr a g m) ∙ e in
    elim (Bool-cases (same_addr g.addr a)) [
      | inl same ↦
          let x = rw same at found in
          let eq : g ≡ f = cc in
          (
            subst (λ x. Holds x (fs ++ g ∷ [])) eq (Holds-last g fs),
            sym (ap (λ (x : SavedFlow). x.addr) eq) ∙ (same_addr_iff g.addr a).0 same,
          )
      | inr other ↦ let r = h (rw other at found) in (Holds-append f fs (g ∷ []) r.0, r.1)
    ]

module _ {S : Type 0} (limit : ℕ) where
  drop_oldest-IsValid :
      (d : Demux S)
      → SavedIsValid limit d
      → SavedIsValid limit (drop_oldest limit d)
        × (length (drop_oldest limit d).saved_flows ≤ limit)
  unfolding drop_oldest
  drop_oldest-IsValid d v = go d.saved_flows refl
    where
      go :
          (fs : List SavedFlow)
          → d.saved_flows ≡ fs
          → SavedIsValid limit (drop_oldest limit d)
            × (length (drop_oldest limit d).saved_flows ≤ limit)
      go [] e = rw (e, drop_oldest) (v, rw e (omega arith))
      go (g ∷ fs) e =
          let n : length d.saved_flows ≡ suc (length fs) = ap length e in
          elim (Bool-cases (ltb limit (length d.saved_flows))) [
            | inl more ↦
                rw (e, drop_oldest, more)
                  (
                    record {
                      alive = λ a f h.
                          drop_alive a f g fs d.saved_flow_map (λ k. rw e at (v.alive a f k)) h;
                      bounded = omega (arith, v.bounded, n);
                    },
                    omega (arith, v.bounded, n),
                  )
            | inr few ↦ rw (e, drop_oldest, few) (v, ground (arith, n))
          ]

  -- Saving a flow keeps the map free of pointers to flows that the vector no longer holds, and the
  -- number of saved flows at the limit plus one at most; the flow is then found under its address.
  pub save_flow-IsValid :
      (t : Tcpip S) (d : Demux S)
      → SavedIsValid limit d
      → SavedIsValid limit (save_flow limit t d)
        × (find same_addr t.myflow.addr (save_flow limit t d).saved_flow_map
            ≡ some (record { addr = t.myflow.addr; saved_filename = t.flow_pathname; isn = t.isn }))
  unfolding save_flow
  save_flow-IsValid t d v =
      let (w, room) = drop_oldest-IsValid d v in
      let sf : SavedFlow = record {
        addr = t.myflow.addr;
        saved_filename = t.flow_pathname;
        isn = t.isn;
      } in
      let e = drop_oldest limit d in
      let added = λ (a : FlowAddr). find-insert flow_addr_eq sf.addr a sf e.saved_flow_map in
      (
        record {
          alive = λ a f h. insert_alive a f sf e.saved_flows e.saved_flow_map (w.alive a f) h;
          bounded = omega (arith, length-append e.saved_flows (sf ∷ []));
        },
        added sf.addr ∙ rw ((same_addr_iff t.myflow.addr t.myflow.addr).1 refl),
      )
