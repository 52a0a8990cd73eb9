-- ===== src/Demux/Invariant/Saving.antt =====
-- src/tcpdemux.cpp: tcpdemux::save_flow and the deletion of a flow keep the invariant.
use tcpflow.Base.{ℕ, ◌≡◌, refl, sym, ap, subst, none, some, List, [], ◌∷◌, ◌++◌, arith}
use tcpflow.Base.Maps.{erase-IsDistinct, insert, erase, find-erase}
use tcpflow.Flow.{FlowAddr, same_addr}
use tcpflow.Flow.Addr.{same_addr_iff, flow_addr_eq}
use tcpflow.Tcpip.State.{Tcpip}
use tcpflow.Demux.State.{Demux, SavedFlow, set_object}
use tcpflow.Demux.Flows.{drop_oldest, save_flow}
use tcpflow.Demux.Flows.Saved.{SavedIsValid, save_flow-IsValid}
use tcpflow.Demux.Files.Closing.{SameOpen-OpenIsValid, fd_of}
use tcpflow.Demux.Invariant.{IsSound, addr_of}

drop_oldest_saved :
    {S : Type 0} (limit : ℕ) (d : Demux S)
    → drop_oldest limit d ≡ record d {
      saved_flow_map = (drop_oldest limit d).saved_flow_map;
      saved_flows = (drop_oldest limit d).saved_flows;
    }
unfolding drop_oldest
drop_oldest_saved limit d = ground arith

-- The saved flows are changed.
abbrev with_saved : {S : Type 0} → List (FlowAddr × SavedFlow) → List SavedFlow → Demux S → Demux S
with_saved m fs d = record d { saved_flow_map = m; saved_flows = fs }

pub save_flow_saved :
    {S : Type 0} (limit : ℕ) (t : Tcpip S) (d : Demux S)
    → save_flow limit t d
      ≡ with_saved (save_flow limit t d).saved_flow_map (save_flow limit t d).saved_flows d
unfolding save_flow
save_flow_saved {S = S} limit t d =
    let sf : SavedFlow = record {
      addr = t.myflow.addr;
      saved_filename = t.flow_pathname;
      isn = t.isn;
    } in
    ap
      (λ (e : Demux S). record e {
        saved_flow_map = insert same_addr sf.addr sf (drop_oldest limit d).saved_flow_map;
        saved_flows = (drop_oldest limit d).saved_flows ++ sf ∷ [];
      })
      (drop_oldest_saved limit d)

module _ {S : Type 0} (limit : ℕ) (whole flows : List (FlowAddr × ℕ)) where
  with_saved-IsSound :
      (m : List (FlowAddr × SavedFlow)) (fs : List SavedFlow) (d : Demux S)
      → IsSound limit whole flows d
      → SavedIsValid limit (with_saved m fs d)
      → IsSound limit whole flows (with_saved m fs d)
  with_saved-IsSound m fs d v s = record {
    map_valid = record {
      objects = v.map_valid.objects;
      distinct = v.map_valid.distinct;
      unborn = v.map_valid.unborn;
    };
    open_valid =
        SameOpen-OpenIsValid d (with_saved m fs d) v.open_valid
          (record { os = refl; open_flows = refl; fds = λ q. refl });
    saved_valid = s;
    at = v.at;
  }

  pub save_flow-IsSound :
      (t : Tcpip S) (d : Demux S)
      → IsSound limit whole flows d
      → IsSound limit whole flows (save_flow limit t d)
  save_flow-IsSound t d v =
      let e = save_flow_saved limit t d in
      let m = (save_flow limit t d).saved_flow_map in
      let fs = (save_flow limit t d).saved_flows in
      subst (IsSound limit whole flows) (sym e) (
        with_saved-IsSound m fs d v
          (subst (SavedIsValid limit) e (save_flow-IsValid limit t d v.saved_valid).0))

  pub delete-IsSound :
      (a : FlowAddr) (p : ℕ) (d : Demux S)
      → IsSound limit whole flows d
      → addr_of (d.heap p) ≡ some a
      → fd_of (d.heap p) ≡ none
      → IsSound limit whole (erase same_addr a flows) (record d { heap = set_object p none d.heap })
  delete-IsSound a p d v at closed = record {
    map_valid = record {
      objects = λ b q. ground (
        arith,
        find-erase flow_addr_eq a b flows,
        same_addr_iff a b,
        at,
        v.map_valid.objects b q,
        v.map_valid.objects b p,
        v.map_valid.objects a q,
        v.map_valid.objects a p,
      );
      distinct = erase-IsDistinct flow_addr_eq a flows v.map_valid.distinct;
      unborn = λ q h. ground (arith, v.map_valid.unborn q h);
    };
    open_valid =
        SameOpen-OpenIsValid d (record d { heap = set_object p none d.heap }) v.open_valid
          (record {
            os = refl;
            open_flows = refl;
            fds = λ q. ground (arith, closed, ap d.heap {x = q} {y = p});
          });
    saved_valid = record { alive = v.saved_valid.alive; bounded = v.saved_valid.bounded };
    at = v.at;
  }
