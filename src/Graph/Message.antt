-- ===== src/Graph/Message.antt =====
-- The errors of Compile and their order (builder.go). `quote` is fmt's %q.
use flowy.Prelude.{
  Bool, true, false, ◌&&◌, ◌||◌, List, [], ◌∷◌, ◌++◌, ltb, ◌==◌, nat_eq, if◌then◌else◌,
}
use flowy.Base.{Text, text, text_eq}

-- The errors of the checks.
pub data CompileErr : Type 0 where
  node_again edge_again router_again retry_again : Text → CompileErr
  reducer_nil entry_not_set name_empty : CompileErr
  entry_unknown not_registered reserved handler_nil router_nil targets_missing : Text → CompileErr
  target_unknown fallback_unknown : Text → Text → CompileErr
  source_unknown fallback_empty both_routes no_route : Text → CompileErr
  exempt_with_edge exempt_with_router exempt_unknown retry_not_exempt : Text → CompileErr

-- strings.Compare(s, t) <= 0
abbrev text_le : Text → Text → Bool
text_le [] t = true
text_le (x ∷ s) [] = false
text_le (x ∷ s) (y ∷ t) = ltb x y || (x == y && text_le s t)

module _ (quote : Text → Text) where
  unfoldable pub message : CompileErr → Text
  message (node_again n) = text "flowy: node " ++ quote n ++ text " registered more than once"
  message (edge_again n) = text "flowy: edge from " ++ quote n ++ text " registered more than once"
  message (router_again n) =
      text "flowy: conditional edge from " ++ quote n ++ text " registered more than once"
  message (retry_again n) =
      text "flowy: retry route from " ++ quote n ++ text " registered more than once"
  message reducer_nil = text "flowy: reducer must not be nil"
  message entry_not_set = text "flowy: entry point not set"
  message name_empty = text "flowy: node name must not be empty"
  message (entry_unknown n) =
      text "flowy: entry point " ++ quote n ++ text " is not a registered node"
  message (not_registered n) = text "flowy: node " ++ quote n ++ text " not registered"
  message (reserved n) = text "flowy: node " ++ quote n ++ text " is reserved for terminal routing"
  message (handler_nil n) = text "flowy: node " ++ quote n ++ text " has nil handler"
  message (router_nil n) = text "flowy: conditional edge from " ++ quote n ++ text " has nil router"
  message (targets_missing n) =
      text "flowy: conditional edge from "
      ++ quote n
      ++ text " requires allowedTargets at compile time"
  message (target_unknown n t) =
      text "flowy: conditional edge from " ++ quote n ++ text " allows unknown target " ++ quote t
  message (fallback_unknown n t) =
      text "flowy: retry route from " ++ quote n ++ text " references unknown fallback " ++ quote t
  message (source_unknown n) =
      text "flowy: retry route source " ++ quote n ++ text " is not registered"
  message (fallback_empty n) =
      text "flowy: retry route from " ++ quote n ++ text " has empty fallback"
  message (both_routes n) =
      text "flowy: node " ++ quote n ++ text " has both edge and conditional edge"
  message (no_route n) =
      text "flowy: node "
      ++ quote n
      ++ text " has no outgoing edge or conditional edge (required for Completed() routing)"
  message (exempt_with_edge n) =
      text "flowy: node " ++ quote n ++ text " has AllowNoOutgoingRoute but also has a static edge"
  message (exempt_with_router n) =
      text "flowy: node "
      ++ quote n
      ++ text " has AllowNoOutgoingRoute but also has a conditional edge"
  message (exempt_unknown n) = text "flowy: AllowNoOutgoingRoute for unknown node " ++ quote n
  message (retry_not_exempt n) =
      text "flowy: node "
      ++ quote n
      ++ text " has AddRetryRoute but is not exempt via AllowNoOutgoingRoute"

  insert_sorted : CompileErr → List CompileErr → List CompileErr
  insert_sorted e [] = e ∷ []
  insert_sorted e (x ∷ xs) =
      if text_le (message e) (message x) then e ∷ x ∷ xs else x ∷ insert_sorted e xs

  -- slices.SortFunc with strings.Compare on the messages.
  unfoldable pub sorted : List CompileErr → List CompileErr
  unfolding insert_sorted
  sorted [] = []
  sorted (e ∷ es) = insert_sorted e (sorted es)
