-- ===== src/HdmiCecSink/Reach/Ports.antt =====
-- The tables of the ports through every operation that changes them.
use entservices_inputoutput.Base.{ℕ, ◌<◌, ◌≢◌, Bool, List, [], ◌∷◌, map, All, arith, suc}
use entservices_inputoutput.HdmiCecSink.Types.{PhysicalAddress, unregistered}
use entservices_inputoutput.HdmiCecSink.Port.{HdmiPortMap, add_child, remove_child, set_child}
use entservices_inputoutput.HdmiCecSink.Port.Route.{IsPort, add_child-IsPort, remove_child-IsPort}
use entservices_inputoutput.HdmiCecSink.Devices.{attach, detach}
use entservices_inputoutput.HdmiCecSink.Control.{update_ports}

-- A port whose tables are well formed and that is not taken for the TV.
pub record IsOthersPort (own : ℕ) (p : HdmiPortMap) : Type 0 where
  pub port : IsPort p
  pub other : p.logical_addr ≢ own

module _ (own : ℕ) where
  attach-IsOthersPort :
      (la : ℕ) (a : PhysicalAddress) (p : HdmiPortMap)
      → la < 16
      → la ≢ own
      → IsOthersPort own p
      → IsOthersPort own (attach la a p)
  unfolding attach add_child set_child
  attach-IsOthersPort la a p h n o = record {
    port = ground (arith, add_child-IsPort p la a h o.port);
    other = ground (arith, o.other);
  }

  detach-IsOthersPort :
      (a : PhysicalAddress) (p : HdmiPortMap)
      → own ≢ unregistered
      → IsOthersPort own p
      → IsOthersPort own (detach a p)
  unfolding detach remove_child set_child
  detach-IsOthersPort a p n o = record {
    port = ground (arith, remove_child-IsPort p a o.port);
    other = ground (arith, o.other);
  }

  pub All-attach :
      (la : ℕ) (a : PhysicalAddress) (ps : List HdmiPortMap)
      → la < 16
      → la ≢ own
      → All (IsOthersPort own) ps
      → All (IsOthersPort own) (map (attach la a) ps)
  All-attach la a [] h n o = tt
  All-attach la a (p ∷ ps) h n o = (attach-IsOthersPort la a p h n o.0, All-attach la a ps h n o.1)

  pub All-detach :
      (a : PhysicalAddress) (ps : List HdmiPortMap)
      → own ≢ unregistered
      → All (IsOthersPort own) ps
      → All (IsOthersPort own) (map (detach a) ps)
  All-detach a [] n o = tt
  All-detach a (p ∷ ps) n o = (detach-IsOthersPort a p n o.0, All-detach a ps n o.1)

  pub All-update_ports :
      (status : ℕ → Bool) (i : ℕ) (ps : List HdmiPortMap)
      → All (IsOthersPort own) ps
      → All (IsOthersPort own) (update_ports status i ps)
  All-update_ports status i [] o = tt
  All-update_ports status i (p ∷ ps) o =
      (ground (arith, o.0.port, o.0.other), All-update_ports status (suc i) ps o.1)
