-- ===== src/Edges/Deleted.antt =====
-- What a DEL_EDGE request can do to the edges.
use tinc_quic.Common.{ℕ, ◌≡◌, refl, sym, ap, ◌∙◌, ◌≢◌, ◌⊎◌, inl, inr, arith, Bool, true, false}
use tinc_quic.Common.{◌&&◌, ◌||◌, not, Option, none, some, List, ◌∷◌, ◌==◌, if◌then◌else◌}
use tinc_quic.Common.{Bool-cases, ==_iff, Option-cases, bytes_eq}
use mathlib.Core.Path.{subst}
use tinc_quic.Edges.{Edges, edge_del, lookup_edge}
use tinc_quic.Edges.Delete.{edge_del-IsEdges}
use tinc_quic.Edges.Invariant.{Distinct, IsEdges, present}
use tinc_quic.Edges.Lookup.{lookup_edge-IsEdges}
use tinc_quic.Edges.Order.{WeightsFit}
use tinc_quic.Edges.Requests.{clean_up, drop_back, Network, del_between, refuse, remove_edge}
use tinc_quic.Edges.Requests.{del_edge_h, del_known, forward_request, del_looked_up}
use tinc_quic.Edges.Requests.{is_indirect}
use tinc_quic.Protocol.{seen_request}
use tinc_quic.Utils.Names.{check_id}

-- Sound trees, no edge that was not there, and every edge but those that may go.
pub record Respects (name : ℕ → List ℕ) (May : ℕ → Type 0) (s s' : Edges) : Type 0 where
  pub sound : IsEdges name s'
  pub same_from : s'.from ≡ s.from
  pub same_to : s'.to ≡ s.to
  pub no_new : (x : ℕ) → present s' x ≡ true → present s x ≡ true
  pub kept : (x : ℕ) → present s x ≡ true → (present s' x ≡ true) ⊎ May x

module _ (name : ℕ → List ℕ) (May : ℕ → Type 0) where
  refl-Respects : (s : Edges) → IsEdges name s → Respects name May s s
  refl-Respects s ok = record {
    sound = ok;
    same_from = refl;
    same_to = refl;
    no_new = λ x h. h;
    kept = λ x h. inl h;
  }

  trans-Respects :
      (s s' s'' : Edges)
      → Respects name May s s'
      → Respects name May s' s''
      → Respects name May s s''
  trans-Respects s s' s'' a b = record {
    sound = b.sound;
    same_from = b.same_from ∙ a.same_from;
    same_to = b.same_to ∙ a.same_to;
    no_new = λ x h. a.no_new x (b.no_new x h);
    kept = λ x h. elim (a.kept x h) [ inl k ↦ b.kept x k | inr may ↦ inr may ];
  }

  del-Respects :
      (e : ℕ) (s : Edges)
      → WeightsFit s
      → IsEdges name s
      → present s e ≡ true
      → May e
      → Respects name May s (edge_del name e s)
  unfolding edge_del
  del-Respects e s fit ok there may =
      let (sound, left) = edge_del-IsEdges name s ok e fit there in
      record {
        sound = sound;
        same_from = refl;
        same_to = refl;
        no_new = λ x h. ground (arith, left x, h);
        kept = λ x h. elim (Bool-cases (e == x)) [
          | inl f ↦ inr (subst May ((==_iff e x).0 f) may)
          | inr f ↦ inl (left x ∙ ap (λ b. if b then false else present s x) f ∙ h)
        ];
      }

  module _ (distinct : Distinct name) where
    lookup-Respects :
        (from to : ℕ) (s : Edges)
        → IsEdges name s
        → Respects name May s (lookup_edge name from to s).1
    unfolding lookup_edge
    lookup-Respects from to s ok =
        let (sound, same, _) = lookup_edge-IsEdges name distinct from to s ok in
        record {
          sound = sound;
          same_from = refl;
          same_to = refl;
          no_new = λ x h. sym (same x) ∙ h;
          kept = λ x h. inl (same x ∙ h);
        }

    -- A search and the deletion of what it found.
    found-Respects :
        (from to e : ℕ) (s : Edges)
        → WeightsFit s
        → IsEdges name s
        → (lookup_edge name from to s).0 ≡ some e
        → (s.from e ≡ from → s.to e ≡ to → May e)
        → Respects name May s (edge_del name e (lookup_edge name from to s).1)
    unfolding lookup_edge
    found-Respects from to e s fit ok found may =
        let looked = lookup-Respects from to s ok in
        let (_, same, finds) = lookup_edge-IsEdges name distinct from to s ok in
        let (there, home, goal) = (finds e).0 found in
        trans-Respects s (lookup_edge name from to s).1 _ looked (
          del-Respects e (lookup_edge name from to s).1 fit (looked.sound) (same e ∙ there)
            (may home goal))

    module _ (myself : ℕ) (peer : Option ℕ) (tunnelserver : Bool)
        (graph : Edges → (ℕ → Bool) → ℕ → Bool) where
      clean_up-Respects :
          (to : ℕ) (s : Network)
          → WeightsFit s.edges
          → IsEdges name s.edges
          → (to ≢ myself → (e : ℕ) → s.edges.from e ≡ to → s.edges.to e ≡ myself → May e)
          → s.reachable myself ≡ true
          → Respects name May s.edges (clean_up name myself peer tunnelserver graph to s).edges
      unfolding clean_up drop_back
      clean_up-Respects to s fit ok may here = elim (Bool-cases (s.reachable to)) [
        | inl e ↦ rw (e, clean_up) (refl-Respects s.edges ok)
        | inr e ↦
            let other : to ≢ myself = λ z. absurd (cc (e, here, ap s.reachable z)) in
            elim (Option-cases (lookup_edge name to myself s.edges).0) [
              | inl missing ↦ rw (e, clean_up, missing) (lookup-Respects to myself s.edges ok)
              | inr (r, found) ↦
                  rw (e, clean_up, found)
                    (found-Respects to myself r s.edges fit ok found (may other r))
            ]
      ]

      del_between-Respects :
          (request : List ℕ) (from to : ℕ) (s : Network)
          → WeightsFit s.edges
          → IsEdges name s.edges
          → (from ≢ myself → (e : ℕ) → s.edges.from e ≡ from → s.edges.to e ≡ to → May e)
          → (to ≢ myself → (e : ℕ) → s.edges.from e ≡ to → s.edges.to e ≡ myself → May e)
          → s.reachable myself ≡ true
          → ((edges : Edges) (r : ℕ → Bool) → r myself ≡ true → graph edges r myself ≡ true)
          → Respects name May s.edges
              (del_between name myself peer tunnelserver graph request from to s).edges
      unfolding del_between refuse remove_edge lookup_edge edge_del
      del_between-Respects request from to s fit ok may may_back here marks =
          elim (Option-cases (lookup_edge name from to s.edges).0) [
            | inl missing ↦ rw (missing, del_between) (lookup-Respects from to s.edges ok)
            | inr (e, found) ↦
                let (_, _, finds) = lookup_edge-IsEdges name distinct from to s.edges ok in
                let (_, home, _) = (finds e).0 found in
                elim (Bool-cases (s.edges.from e == myself)) [
                  | inl mine ↦ rw (found, mine, del_between) (lookup-Respects from to s.edges ok)
                  | inr not_mine ↦
                      let other : from ≢ myself = λ z.
                        absurd (cc (not_mine, (==_iff (s.edges.from e) myself).1 (home ∙ z))) in
                      let left : Edges = edge_del name e (lookup_edge name from to s.edges).1 in
                      let removed = found-Respects from to e s.edges fit ok found (may other e) in
                      let s' : Network = record s {
                        sent = if tunnelserver then s.sent else forward_request request ∷ s.sent;
                        edges = left;
                        reachable = graph left s.reachable;
                      } in
                      rw (found, not_mine, del_between)
                        (trans-Respects s.edges left _ removed (
                          clean_up-Respects to s' fit (removed.sound) may_back
                            (marks left s.reachable here)))
                ]
          ]

-- The edges a request may delete: not those from here, but the one it names, or one to here.
abbrev pub Deletable : Network → ℕ → List ℕ → List ℕ → ℕ → Type 0
Deletable s myself from_name to_name e =
    (s.edges.from e ≢ myself)
    × (((s.node_of from_name ≡ some (s.edges.from e)) × (s.node_of to_name ≡ some (s.edges.to e)))
        ⊎ ((s.node_of to_name ≡ some (s.edges.from e)) × (s.edges.to e ≡ myself)))

module _ (name : ℕ → List ℕ) (distinct : Distinct name) (myself : ℕ) (peer : Option ℕ)
    (tunnelserver : Bool) (graph : Edges → (ℕ → Bool) → ℕ → Bool) where
  looked_up-Respects :
      (request from_name to_name : List ℕ) (from to : Option ℕ) (s : Network)
      → WeightsFit s.edges
      → IsEdges name s.edges
      → s.reachable myself ≡ true
      → ((edges : Edges) (r : ℕ → Bool) → r myself ≡ true → graph edges r myself ≡ true)
      → s.node_of from_name ≡ from
      → s.node_of to_name ≡ to
      → Respects name
          (Deletable s myself from_name to_name)
          s.edges
          (del_known name myself peer tunnelserver graph request from to s).edges
  looked_up-Respects request from_name to_name none to s fit ok here marks f t =
      refl-Respects name (Deletable s myself from_name to_name) s.edges ok
  looked_up-Respects request from_name to_name (some from) none s fit ok here marks f t =
      refl-Respects name (Deletable s myself from_name to_name) s.edges ok
  looked_up-Respects request from_name to_name (some from) (some to) s fit ok here marks f t =
      del_between-Respects name (Deletable s myself from_name to_name) distinct myself peer
        tunnelserver graph request from to s fit ok
        (λ other e a b. (λ z. other (sym a ∙ z), inl (f ∙ ap some (sym a), t ∙ ap some (sym b))))
        (λ other e a b. (λ z. other (sym a ∙ z), inr (t ∙ ap some (sym a), b))) here marks

  -- For nodes with different names, weights whose differences fit an int, sound trees of edges, a node
  -- of our own that is reachable, and a graph() that keeps it reachable: a DEL_EDGE request leaves
  -- sound trees, adds no edge, deletes none that comes from our node, and none but the edge it names
  -- and one from the second node it names to ours. If it is refused, nothing is changed.
  pub del_edge_h-Respects :
      (now : ℕ) (request from_name to_name : List ℕ) (s : Network)
      → WeightsFit s.edges
      → IsEdges name s.edges
      → s.reachable myself ≡ true
      → ((edges : Edges) (r : ℕ → Bool) → r myself ≡ true → graph edges r myself ≡ true)
      → Respects name
          (Deletable s myself from_name to_name)
          s.edges
          (del_edge_h name myself peer tunnelserver graph now request
            (some (from_name, to_name))
            s).1.edges
        × ((del_edge_h name myself peer tunnelserver graph now request
                (some (from_name, to_name))
                s).0
              ≡ false
            → (del_edge_h name myself peer tunnelserver graph now request
                (some (from_name, to_name))
                s).1
              ≡ s)
  unfolding del_edge_h del_looked_up
  del_edge_h-Respects now request from_name to_name s fit ok here marks =
      let May : ℕ → Type 0 = Deletable s myself from_name to_name in
      let same = refl-Respects name May s.edges ok in
      elim (Bool-cases
        (not (check_id from_name) || not (check_id to_name) || bytes_eq from_name to_name)) [
          | inl bad ↦ rw (bad, del_edge_h) (same, λ h. refl)
          | inr good ↦ elim (Bool-cases (seen_request now request s.past).0) [
            | inl seen ↦ rw (good, seen, del_edge_h) (same, λ h. absurd cc)
            | inr fresh ↦
                elim (Bool-cases (
                  tunnelserver
                  && is_indirect name myself peer tunnelserver graph (s.node_of from_name)
                      (s.node_of to_name))) [
                        | inl indirect ↦
                            rw (good, fresh, del_edge_h, indirect) (same, λ h. absurd cc)
                        | inr direct ↦
                            rw (good, fresh, del_edge_h, direct)
                              (
                                looked_up-Respects request from_name to_name (s.node_of from_name)
                                    (s.node_of to_name)
                                    (record s { past = (seen_request now request s.past).1 }) fit ok
                                    here marks refl refl,
                                λ h. absurd cc,
                              )
                      ]
          ]
        ]
