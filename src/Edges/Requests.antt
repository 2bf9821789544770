-- ===== src/Edges/Requests.antt =====
-- del_edge_h of src/protocol_edge.c. The two names that sscanf reads are an argument, `none` if it
-- does not read two. Nodes are numbers, `myself` and that of the connection among them; what graph()
-- makes of the reachability of nodes is a parameter.
use tinc_quic.Common.{ℕ, ◌+◌, Bool, true, false, ◌&&◌, ◌||◌, not, Option, none, some, List, ◌∷◌}
use tinc_quic.Common.{◌==◌, if◌then◌else◌, bytes_eq}
use tinc_quic.Edges.{Edges, edge_del, lookup_edge}
use tinc_quic.Protocol.{PastRequest, seen_request}
use tinc_quic.Utils.Names.{check_id}

-- What is sent, with the edge or the request that it is about.
pub data Message : Type 0 where
  forward_request : List ℕ → Message
  send_add_edge : ℕ → Message
  send_del_edge : ℕ → Message

-- `sent` are the messages, the newest first.
pub record Network : Type 0 where
  pub edges : Edges
  pub node_of : List ℕ → Option ℕ
  pub reachable : ℕ → Bool
  pub past : List PastRequest
  pub contradicting_del_edge : ℕ
  pub sent : List Message

abbrev pub same_node : Option ℕ → Option ℕ → Bool
same_node none none = true
same_node none (some n) = false
same_node (some m) none = false
same_node (some m) (some n) = m == n

module _ (name : ℕ → List ℕ) (myself : ℕ) (peer : Option ℕ) (tunnelserver : Bool)
    (graph : Edges → (ℕ → Bool) → ℕ → Bool) where
  -- `from != myself && from != c->node && to != myself && to != c->node`
  abbrev pub is_indirect : Option ℕ → Option ℕ → Bool
  is_indirect from to =
      not (same_node from (some myself))
      && not (same_node from peer)
      && not (same_node to (some myself))
      && not (same_node to peer)

  unfoldable pub drop_back : ℕ → Network → Network
  drop_back e s = record s {
    sent = if tunnelserver then s.sent else send_del_edge e ∷ s.sent;
    edges = edge_del name e s.edges;
  }

  -- `if(!to->status.reachable)`
  unfoldable pub clean_up : ℕ → Network → Network
  clean_up to s =
      let (found, edges) = lookup_edge name to myself s.edges in
      let s' : Network = record s { edges = edges } in
      if s.reachable to then s else elim found [ none ↦ s' | some e ↦ drop_back e s' ]

  unfoldable pub remove_edge : List ℕ → ℕ → ℕ → Network → Network
  remove_edge request to e s =
      let edges = edge_del name e s.edges in
      clean_up to (record s {
        sent = if tunnelserver then s.sent else forward_request request ∷ s.sent;
        edges = edges;
        reachable = graph edges s.reachable;
      })

  unfoldable pub refuse : ℕ → Network → Network
  refuse e s = record s {
    contradicting_del_edge = s.contradicting_del_edge + 1;
    sent = send_add_edge e ∷ s.sent;
  }

  unfoldable pub del_between : List ℕ → ℕ → ℕ → Network → Network
  del_between request from to s =
      let (found, edges) = lookup_edge name from to s.edges in
      let s' : Network = record s { edges = edges } in
      elim found [
        | none ↦ s'
        | some e ↦ if edges.from e == myself then refuse e s' else remove_edge request to e s'
      ]

  abbrev pub del_known : List ℕ → Option ℕ → Option ℕ → Network → Network
  del_known request none to s = s
  del_known request (some from) none s = s
  del_known request (some from) (some to) s = del_between request from to s

  unfoldable pub del_looked_up : List ℕ → Option ℕ → Option ℕ → Network → Network
  del_looked_up request from to s =
      if tunnelserver && is_indirect from to then s else del_known request from to s

  unfoldable pub del_edge_h : ℕ → List ℕ → Option (List ℕ × List ℕ) → Network → Bool × Network
  del_edge_h now request none s = (false, s)
  del_edge_h now request (some (from_name, to_name)) s =
      let (seen, past) = seen_request now request s.past in
      let s' : Network = record s { past = past } in
      if not (check_id from_name) || not (check_id to_name) || bytes_eq from_name to_name
      then (false, s)
      else if seen
      then (true, s')
      else (true, del_looked_up request (s.node_of from_name) (s.node_of to_name) s')
