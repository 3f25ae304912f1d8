-- ===== src/Lddc/Publishers/Pass.antt =====
-- One pass of `DistributePointCloudData` of lddc.cpp, up to the publishers.
use drone_exploration_stack.Prelude.{◌≡◌, List, All}
use drone_exploration_stack.Floats.{Floats}
use drone_exploration_stack.Lds.{Lds}
use drone_exploration_stack.Lddc.{Lddc, Delivery}
use drone_exploration_stack.Lddc.Publishers.{Publishers}
use drone_exploration_stack.Lddc.Publishers.Sending.{IsCustom}

module _ {fl : Floats} where
  -- Messages for the slots below 32, from an object that publishes, which goes on to publish.
  ToRos : Lddc fl × List (Delivery fl) → Type 0
  ToRos r = (r.0.output_type ≡ 0) × All IsCustom r.1
