-- ===== src/Graph/Reachability.antt =====
-- check_reachability and graph of src/graph.c. The scripts that are run, the updates of subnets and
-- the switching of the device are the events that the functions report, in their order.
pub mod Agrees
use tinc_quic.Common.{ℕ, zero, suc, ◌+◌, ◌-◌, ◌*◌, ◌/◌, ◌%◌, ◌^◌, ◌≤◌, ◌<◌, bit_and, bit_or}
use tinc_quic.Common.{◌≡◌, refl, sym, ap, ◌∙◌, ◌≢◌, ◌↔◌, ◌⊎◌, inl, inr, arith, Bool, true}
use tinc_quic.Common.{false, ◌&&◌, ◌||◌, not, Option, none, some, List, [], ◌∷◌, ◌++◌, map, ltb}
use tinc_quic.Common.{leb, ◌==◌, if◌then◌else◌, ◌>>=◌}
use tinc_quic.Graph.{Graph, Node, Status, update_node_udp}
use tinc_quic.Graph.Bfs.{finished, aborted, out_of_fuel, sssp_bfs}
use tinc_quic.Graph.Kruskal.{MstState, same, mst_kruskal}
use tinc_quic.Quic.Datagram.{mtu}
use tinc_quic.Subnet.Lookup.{SubnetState, subnet_cache_flush}

-- `execute_script` twice for a node, then `subnet_update`; `device_disable`, `device_enable`.
pub data Event : Type 0 where
  host_scripts : ℕ → Bool → Event
  subnet_updates : ℕ → Bool → Event
  device_disable : Event
  device_enable : Event

-- `memset(&n->status, 0, sizeof(n->status))`
abbrev pub no_status : Status
no_status = record {
  visited = false;
  reachable = false;
  indirect = false;
  udp_confirmed = false;
  send_locally = false;
  udppacket = false;
  has_address = false;
  ping_sent = false;
}

-- A node whose reachability has changed. `update_node_udp` leaves the node itself alone.
unfoldable pub change : Bool → ℕ → Node → Node
change is_myself now n =
    let reachable = not n.status.reachable in
    let changed : Node = record n {
      status = record n.status { reachable = reachable; udp_confirmed = false };
      last_state_change = now;
      last_req_key = 0;
      maxmtu = mtu;
      maxrecentlen = 0;
      minmtu = 0;
      mtuprobes = 0;
    } in
    let cleared : Node = if is_myself then changed else update_node_udp changed none in
    if reachable then changed else record cleared { status = no_status; options = 0 }

abbrev pub has_changed : Node → Bool
has_changed n = not (same n.status.visited n.status.reachable)

unfoldable pub check_node : ℕ → ℕ → ℕ → Node → Node
check_node myself now k n = if has_changed n then change (k == myself) now n else n

unfoldable pub node_events : ℕ → Node → List Event
node_events k n =
    let reachable = not n.status.reachable in
    if has_changed n then host_scripts k reachable ∷ subnet_updates k reachable ∷ [] else []

pub record Counts : Type 0 where
  pub reachable_count : ℕ
  pub became_reachable_count : ℕ
  pub became_unreachable_count : ℕ

unfoldable pub count_node : ℕ → ℕ → ℕ → Node → Counts → Counts
count_node myself now k n c = if k == myself then c else record {
  reachable_count =
      c.reachable_count + (if (check_node myself now k n).status.reachable then 1 else 0);
  became_reachable_count =
      c.became_reachable_count + (if has_changed n && not n.status.reachable then 1 else 0);
  became_unreachable_count =
      c.became_unreachable_count + (if has_changed n && n.status.reachable then 1 else 0);
}

-- The loop over the nodes 0 to n - 1.
pub count_nodes : ℕ → ℕ → ℕ → (ℕ → Node) → Counts
count_nodes myself now zero nodes = record {
  reachable_count = 0;
  became_reachable_count = 0;
  became_unreachable_count = 0;
}
count_nodes myself now (suc n) nodes =
    count_node myself now n (nodes n) (count_nodes myself now n nodes)

pub all_events : ℕ → (ℕ → Node) → List Event
all_events zero nodes = []
all_events (suc n) nodes = all_events n nodes ++ node_events n (nodes n)

unfoldable pub device_events : Bool → Counts → List Event
device_events device_standby c =
    if not device_standby
    then []
    else if c.reachable_count == 0 && ltb 0 c.became_unreachable_count
    then device_disable ∷ []
    else if ltb 0 c.reachable_count && c.reachable_count == c.became_reachable_count
    then device_enable ∷ []
    else []

unfoldable pub check_reachability : Bool → ℕ → Graph → (ℕ → Node) → (ℕ → Node) × List Event
check_reachability device_standby now g nodes =
    let counts = count_nodes g.myself now g.count nodes in
    (
      λ k. if ltb k g.count then check_node g.myself now k (nodes k) else nodes k,
      all_events g.count nodes ++ device_events device_standby counts,
    )

-- `graph`; `none` where a search is out of fuel or aborts.
unfoldable pub graph_run :
    ℕ
    → Bool
    → ℕ
    → Graph
    → SubnetState
    → (ℕ → Node)
    → Option (SubnetState × (ℕ → Node) × MstState × List Event)
graph_run fuel device_standby now g subnets nodes =
    let flushed = subnet_cache_flush subnets in
    elim (sssp_bfs fuel g nodes) [
      | aborted ↦ none
      | out_of_fuel ↦ none
      | finished found ↦ do
        let (checked, events) = check_reachability device_standby now g found
        tree ← mst_kruskal fuel (λ k. (checked k).status.reachable) g.edges
        some (flushed, checked, tree, events)
    ]
