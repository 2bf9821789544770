-- ===== src/Graph.antt =====
-- src/graph.c with the nodes and edges of src/node.h and src/edge.h. A node is its number, and
-- `nodes` is a map of the numbers below `count`. The edges do not change while the graph is searched,
-- so a pointer to an edge is the edge. Socket numbers, host names and the tree of UDP addresses are
-- not modelled.
pub mod Bfs
pub mod Kruskal
pub mod Reachability
mod Tests
use tinc_quic.Common.{ℕ, zero, suc, ◌+◌, ◌-◌, ◌*◌, ◌/◌, ◌%◌, ◌^◌, ◌≤◌, ◌<◌, bit_and, bit_or}
use tinc_quic.Common.{◌≡◌, refl, sym, ap, ◌∙◌, ◌≢◌, ◌↔◌, ◌⊎◌, inl, inr, arith, Bool, true}
use tinc_quic.Common.{false, ◌&&◌, ◌||◌, not, Option, none, some, List, [], ◌∷◌, ◌++◌, map, ltb}
use tinc_quic.Common.{leb, ◌==◌, if◌then◌else◌, ◌>>=◌}
use tinc_quic.Common.Int.{ℤ}
use tinc_quic.Quic.Datagram.{mtu}

-- `sockaddr_t`, as far as its family matters here
pub data Address : Type 0 where
  unspec : Address
  unknown : Address
  known : ℕ → Address

-- `reverse` is a position in the tree of all edges, `connection` the number of a connection.
pub record Edge : Type 0 where
  pub from : ℕ
  pub to : ℕ
  pub address : Address
  pub options : ℕ
  pub weight : ℤ
  pub connection : Option ℕ
  pub reverse : Option ℕ

pub record Status : Type 0 where
  pub visited : Bool
  pub reachable : Bool
  pub indirect : Bool
  pub udp_confirmed : Bool
  pub send_locally : Bool
  pub udppacket : Bool
  pub has_address : Bool
  pub ping_sent : Bool

-- A distance of -1 is `none`.
pub record Node : Type 0 where
  pub options : ℕ
  pub address : Address
  pub status : Status
  pub last_state_change : ℕ
  pub last_req_key : ℕ
  pub distance : Option ℕ
  pub nexthop : Option ℕ
  pub prevedge : Option Edge
  pub via : Option ℕ
  pub maxrecentlen : ℕ
  pub minmtu : ℕ
  pub maxmtu : ℕ
  pub mtuprobes : ℕ

-- `edges` is edge_weight_tree in its order; `edge_tree` are the edges from a node.
pub record Graph : Type 0 where
  pub count : ℕ
  pub myself : ℕ
  pub edges : List Edge
  pub edge_tree : ℕ → List Edge

abbrev pub update {ℓ} : {A : Type ℓ} → (ℕ → A) → ℕ → A → ℕ → A
update f i a k = if k == i then a else f k

abbrev pub has_reverse : Edge → Bool
has_reverse e = elim e.reverse [ none ↦ false | some r ↦ true ]

-- Both branches clear what was learnt over UDP; `address` is `none` for NULL.
unfoldable pub update_node_udp : Node → Option Address → Node
update_node_udp n address = record n {
  address = elim address [ none ↦ n.address | some sa ↦ sa ];
  status = record n.status { udp_confirmed = false };
  maxrecentlen = 0;
  mtuprobes = 0;
  minmtu = 0;
  maxmtu = mtu;
}
