-- ===== src/Tests/OpenFlows.antt =====
-- The list of open flows.
use tcpflow.Base.{◌≡◌, refl, [], ◌∷◌, ◌++◌, if◌then◌else◌}
use tcpflow.OpenFlows
use tcpflow.OpenFlows.{OpenFlows, nodes, is_linked}
use tcpflow.OpenFlows.Laws.{
  IsValid, empty-IsValid, push_back-IsValid, nodes-erase, nodes-move_to_end, remove,
}

-- Flow 5, then flow 7.
abbrev five : OpenFlows
five = OpenFlows.push_back 5 OpenFlows.empty

abbrev both : OpenFlows
both = OpenFlows.push_back 7 five

both-IsValid : IsValid both
unfolding OpenFlows.push_back OpenFlows.empty
both-IsValid =
    push_back-IsValid 7 five (push_back-IsValid 5 OpenFlows.empty empty-IsValid refl) refl

move_to_end_run : nodes (OpenFlows.move_to_end 5 both).li ≡ 7 ∷ 5 ∷ []
unfolding OpenFlows.push_back OpenFlows.empty OpenFlows.move_to_end OpenFlows.erase_cell
move_to_end_run = refl

nodes-erase_example : nodes (OpenFlows.erase 5 both).li ≡ remove 5 (nodes both.li)
nodes-erase_example = nodes-erase 5 both both-IsValid

nodes-move_to_end_example :
    nodes (OpenFlows.move_to_end 5 both).li
    ≡ (if is_linked 5 both then remove 5 (nodes both.li) ++ 5 ∷ [] else nodes both.li)
nodes-move_to_end_example = nodes-move_to_end 5 both both-IsValid
