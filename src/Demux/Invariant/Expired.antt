-- ===== src/Demux/Invariant/Expired.antt =====
-- src/tcpdemux.cpp: the timeout of process_pkt reads no deleted flow.
use tcpflow.Base.{
  ℕ, ◌%◌, ◌≡◌, sym, ap, subst, ◌∙◌, none, some, List, [], ◌∷◌, arith, ltb, if_either,
}
use tcpflow.Flow.{FlowAddr, TimeVal}
use tcpflow.Base.Maps.{find}
use tcpflow.Base.Maps.{find, erase, find-erase, IsDistinct}
use tcpflow.Base.Word.{u32, sub32}
use tcpflow.Flow.{same_addr}
use tcpflow.Flow.Addr.{same_addr_iff, flow_addr_eq}
use tcpflow.Demux.Rules.{Runs-fact, Runs-load}
use tcpflow.Demux.Invariant.{Tcpip, erase_head, find_head, IsSound-alive, addr_of}
use tcpflow.Demux.State.{Demux, Settings}
use tcpflow.Demux.Rules.{Runs, Runs-return, Runs-weaken, Runs-bind, Runs-then}
use tcpflow.Demux.Packet.{expired, remove_flows}
use tcpflow.Demux.Invariant.{IsSound}
use tcpflow.Demux.Invariant.Flows.{remove_flow-IsSound}
use tcpflow.Demux.Invariant.Known.{Sound}

-- The flows of a list are those of different addresses of the map.
abbrev pub AreLive : List (FlowAddr × ℕ) → List ℕ → Type 0
AreLive flows [] = Unit {0}
AreLive flows (p ∷ ps) =
    (a : FlowAddr) × (find same_addr a flows ≡ some p) × AreLive (erase same_addr a flows) ps

find_behind :
    (a b : FlowAddr) (p q : ℕ) (m : List (FlowAddr × ℕ))
    → find same_addr a m ≡ none
    → find same_addr b m ≡ some q
    → find same_addr b ((a, p) ∷ m) ≡ some q
unfolding find
find_behind a b p q m h e = ground (arith, h, e, same_addr_iff a b)

erase_behind :
    (a b : FlowAddr) (p q : ℕ) (m : List (FlowAddr × ℕ))
    → find same_addr a m ≡ none
    → find same_addr b m ≡ some q
    → erase same_addr b ((a, p) ∷ m) ≡ (a, p) ∷ erase same_addr b m
unfolding erase
erase_behind a b p q m h e = ground (arith, h, e, same_addr_iff a b)

AreLive-behind :
    (a : FlowAddr) (p : ℕ) (m : List (FlowAddr × ℕ)) (ps : List ℕ)
    → find same_addr a m ≡ none
    → AreLive m ps
    → AreLive ((a, p) ∷ m) ps
AreLive-behind a p m [] h v = tt
AreLive-behind a p m (q ∷ ps) h (b, e, v) =
    let gone : find same_addr a (erase same_addr b m) ≡ none =
      ground (arith, find-erase flow_addr_eq b a m, h) in
    (
      b,
      find_behind a b p q m h e,
      subst (λ l. AreLive l ps) (sym (erase_behind a b p q m h e))
          (AreLive-behind a p (erase same_addr b m) ps gone v),
    )

AreLive-front :
    (a : FlowAddr) (p : ℕ) (m : List (FlowAddr × ℕ)) (ps : List ℕ)
    → find same_addr a m ≡ none
    → AreLive m ps
    → AreLive ((a, p) ∷ m) (p ∷ ps)
AreLive-front a p m ps h v =
    (a, find_head a p m, subst (λ l. AreLive l ps) (sym (erase_head a p m h)) v)

module _ {S : Type 0} (cfg : Settings) (flows : List (FlowAddr × ℕ)) where
  -- The invariant, with the live flows of a list.
  abbrev pub Listed : List (FlowAddr × ℕ) → List ℕ → Demux S → Type 0
  Listed m ps d = IsSound cfg.max_saved_flows flows flows d × AreLive m ps

  pub expired-Listed :
      (timeout : ℕ) (now : TimeVal) (m : List (FlowAddr × ℕ))
      → IsDistinct same_addr m
      → ((a : FlowAddr) (p : ℕ) → find same_addr a m ≡ some p → find same_addr a flows ≡ some p)
      → Runs (IsSound cfg.max_saved_flows flows flows) (expired timeout now m) (Listed m)
  unfolding expired
  expired-Listed timeout now [] v sub = Runs-return [] (λ d s. (s, tt))
  expired-Listed timeout now ((a, p) ∷ m) v sub =
      Runs-load p _ (IsSound-alive cfg.max_saved_flows flows flows a p (sub a p (find_head a p m)))
        (λ t.
          Runs-bind (Listed m) _ _
            (Runs-weaken (IsSound cfg.max_saved_flows flows flows) _ (λ d s. s.1)
              (expired-Listed timeout now m v.1 (λ b q e. sub b q (find_behind a b p q m v.0 e))))
            (λ ps. Runs-return _ (λ d s. (
              s.0,
              if_either (AreLive ((a, p) ∷ m))
                  (ltb timeout (sub32 (now.sec % u32) (t.myflow.tlast.sec % u32))) (p ∷ ps) ps
                  (λ late. AreLive-front a p m ps v.0 s.1)
                  (λ early. AreLive-behind a p m ps v.0 s.1),
            ))))

pub remove_flows-Sound :
    {S : Type 0} (cfg : Settings) (flows : List (FlowAddr × ℕ)) (ps : List ℕ)
    → AreLive flows ps
    → Runs {S = S}
        (IsSound cfg.max_saved_flows flows flows)
        (remove_flows cfg ps)
        (λ _. Sound cfg.max_saved_flows)
unfolding remove_flows
remove_flows-Sound cfg flows [] v = Runs-return tt (λ d s. (flows, s))
remove_flows-Sound cfg flows (p ∷ ps) (a, found, v) =
    let limit = cfg.max_saved_flows in
    Runs-load p _ (IsSound-alive limit flows flows a p found) (λ t.
      Runs-fact (t.myflow.addr ≡ a) _
        (λ d s. addr_known t a (sym (ap addr_of s.0) ∙ (s.1.map_valid.objects a p).0 found))
        (λ same.
          Runs-then
            (IsSound limit (erase same_addr t.myflow.addr flows)
              (erase same_addr t.myflow.addr flows))
            _ _
            (Runs-weaken (IsSound limit flows flows) _ (λ d s. s.1)
              (remove_flow-IsSound cfg flows t.myflow.addr))
            (remove_flows-Sound cfg (erase same_addr t.myflow.addr flows) ps
              (subst (λ b. AreLive (erase same_addr b flows) ps) (sym same) v))))
  where
    addr_known :
        {S : Type 0} (t : Tcpip S) (a : FlowAddr) → addr_of (some t) ≡ some a → t.myflow.addr ≡ a
    addr_known t a e = cc
