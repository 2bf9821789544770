-- ===== src/Edges/Entered.antt =====
-- The invariant when a new edge has entered the trees.
use tinc_quic.Common.{ℕ, ◌≡◌, refl, sym, ap, ◌∙◌, ◌≢◌, inl, inr, arith, true, false, ◌&&◌, ◌||◌}
use tinc_quic.Common.{Option, none, some, List, ◌==◌, ==_iff, Bool-cases}
use mathlib.Core.Path.{subst}
use tinc_quic.Edges.{Edges, join_reverse, edge_compare, edge_key, weight_order, itself}
use tinc_quic.Edges.Invariant.{IsEdges, present, Back, one_edge}
use tinc_quic.Splay.{SplayTree}
use tinc_quic.Splay.Members.{member}
use tinc_quic.Splay.Search.{IsTree}

join_reverse_own : (e r : ℕ) (reverse : ℕ → Option ℕ) → join_reverse e (some r) reverse e ≡ some r
join_reverse_own e r reverse = elim (Bool-cases (e == r)) [
  | inl f ↦ rw (f) (ap some ((==_iff e r).0 f))
  | inr f ↦ rw (f, (==_iff e e).1 refl) refl
]

join_reverse_back : (e r : ℕ) (reverse : ℕ → Option ℕ) → join_reverse e (some r) reverse r ≡ some e
join_reverse_back e r reverse = rw ((==_iff r r).1 refl) refl

join_reverse_other :
    (e r x : ℕ) (reverse : ℕ → Option ℕ)
    → (x == e) ≡ false
    → (x == r) ≡ false
    → join_reverse e (some r) reverse x ≡ reverse x
join_reverse_other e r x reverse f g = rw (f, g) refl

join_reverse-none :
    (e : ℕ) (reverse : ℕ → Option ℕ)
    → (join_reverse e none reverse e ≡ none)
      × ((x : ℕ) → (x == e) ≡ false → join_reverse e none reverse x ≡ reverse x)
join_reverse-none e reverse = (rw ((==_iff e e).1 refl) refl, λ x f. rw (f) refl)

-- What the trees hold when `e` has entered, and what lookup_edge has found.
pub record Entered (name : ℕ → List ℕ) (s : Edges) (e : ℕ) (found : Option ℕ)
    (trees : ℕ → SplayTree) (heavy : SplayTree) : Type 0 where
  pub new_trees : (n : ℕ) → IsTree (edge_compare name) (edge_key s) (trees n)
  pub new_weights : IsTree (weight_order name s) itself heavy
  pub in_trees :
      (n x : ℕ)
      → member x (trees n).thread
        ≡ (((n == s.from e) && (e == x)) || member x (s.edge_tree n).thread)
  pub in_weights :
      (x : ℕ) → member x heavy.thread ≡ ((e == x) || member x s.edge_weight_tree.thread)
  pub found_back :
      (r : ℕ) → found ≡ some r → (member r (trees (s.to e)).thread ≡ true) × (s.to r ≡ s.from e)
  pub nothing_back :
      found ≡ none → (x : ℕ) → member x (trees (s.to e)).thread ≡ true → s.to x ≢ s.from e

module _ (name : ℕ → List ℕ) (s : Edges) (ok : IsEdges name s) (e : ℕ) (trees : ℕ → SplayTree)
    (heavy : SplayTree) where
  abbrev pub with_reverse : (ℕ → Option ℕ) → Edges
  with_reverse reverse = record s { reverse = reverse; edge_tree = trees; edge_weight_tree = heavy }

  pub now_present :
      (found : Option ℕ) (reverse : ℕ → Option ℕ) (x : ℕ)
      → Entered name s e found trees heavy
      → present (with_reverse reverse) x ≡ ((e == x) || present s x)
  now_present found reverse x d = elim (Bool-cases (e == x)) [
    | inl f ↦
        let same : (s.from x == s.from e) ≡ true =
          (==_iff (s.from x) (s.from e)).1 (ap s.from (sym ((==_iff e x).0 f))) in
        d.in_trees (s.from x) x ∙ ground (arith, same, f)
    | inr f ↦ d.in_trees (s.from x) x ∙ ground (arith, f)
  ]

  now_own :
      (found : Option ℕ) (n x : ℕ)
      → Entered name s e found trees heavy
      → member x (trees n).thread ≡ true
      → s.from x ≡ n
  now_own found n x d h = elim (Bool-cases ((n == s.from e) && (e == x))) [
    | inl f ↦
        let here : n ≡ s.from e = (==_iff n (s.from e)).0 (ground (arith, f)) in
        let self : e ≡ x = (==_iff e x).0 (ground (arith, f)) in ap s.from (sym self) ∙ sym here
    | inr f ↦
        ok.own n x
          (sym (ap (λ b. b || member x (s.edge_tree n).thread) f) ∙ sym (d.in_trees n x) ∙ h)
  ]

  was_present :
      (found : Option ℕ) (reverse : ℕ → Option ℕ) (x : ℕ)
      → Entered name s e found trees heavy
      → present (with_reverse reverse) x ≡ true
      → (x == e) ≡ false
      → present s x ≡ true
  was_present found reverse x d h f =
      let g : (e == x) ≡ false = ground (arith, f) in
      sym (ap (λ b. b || present s x) g) ∙ sym (now_present found reverse x d) ∙ h

  still_present :
      (found : Option ℕ) (reverse : ℕ → Option ℕ) (x : ℕ)
      → Entered name s e found trees heavy
      → present s x ≡ true
      → present (with_reverse reverse) x ≡ true
  still_present found reverse x d h = now_present found reverse x d ∙ ground (arith, h)

  Entered-self :
      (found : Option ℕ) (reverse : ℕ → Option ℕ)
      → Entered name s e found trees heavy
      → present (with_reverse reverse) e ≡ true
  Entered-self found reverse d =
      now_present found reverse e d ∙ ap (λ b. b || present s e) ((==_iff e e).1 refl)

  -- The edges that lead back, when there was none.
  alone-IsEdges :
      Entered name s e none trees heavy
      → IsEdges name (with_reverse (join_reverse e none s.reverse))
  alone-IsEdges d =
      let reverse : ℕ → Option ℕ = join_reverse e none s.reverse in
      let (self, kept) = join_reverse-none e s.reverse in
      record {
        trees = d.new_trees;
        weights = d.new_weights;
        own = λ n x h. now_own none n x d h;
        both = λ x.
            d.in_weights x
            ∙ ap (λ b. (e == x) || b) (ok.both x)
            ∙ sym (now_present none reverse x d);
        opposite = λ x y h back. elim (Bool-cases (x == e)) [
          | inl f ↦ absurd (cc (back, self, ap reverse ((==_iff x e).0 f)))
          | inr f ↦
              let (there, a, b) =
                ok.opposite x y (was_present none reverse x d h f) (sym (kept x f) ∙ back) in
              (still_present none reverse y d there, a, b)
        ];
        paired = λ x y h (there, a, b). elim (Bool-cases (x == e)) [
          | inl f ↦
              let same : x ≡ e = (==_iff x e).0 f in
              let place = subst (λ n. member y (trees n).thread ≡ true) (a ∙ ap s.to same) there in
              absurd (d.nothing_back refl y place (b ∙ ap s.from same))
          | inr f ↦ elim (Bool-cases (y == e)) [
            | inl g ↦
                let same : y ≡ e = (==_iff y e).0 g in
                let place =
                  subst (λ n. member x (trees n).thread ≡ true) (sym b ∙ ap s.to same) h in
                absurd (d.nothing_back refl x place (sym a ∙ ap s.from same))
            | inr g ↦
                kept x f
                ∙ ok.paired x y (was_present none reverse x d h f)
                    (was_present none reverse y d there g, a, b)
          ]
        ];
      }

  -- The edges that lead back, when there was one.
  joined-IsEdges :
      (r : ℕ)
      → Entered name s e (some r) trees heavy
      → IsEdges name (with_reverse (join_reverse e (some r) s.reverse))
  joined-IsEdges r d =
      let reverse : ℕ → Option ℕ = join_reverse e (some r) s.reverse in
      let s' : Edges = with_reverse reverse in
      let (r_there, r_to) = d.found_back r refl in
      let r_from : s.from r ≡ s.to e = now_own (some r) (s.to e) r d r_there in
      let r_present : present s' r ≡ true =
        subst (λ n. member r (trees n).thread ≡ true) (sym r_from) r_there in
      let e_present = Entered-self (some r) reverse d in
      let self : reverse e ≡ some r = join_reverse_own e r s.reverse in
      let back : reverse r ≡ some e = join_reverse_back e r s.reverse in
      record {
        trees = d.new_trees;
        weights = d.new_weights;
        own = λ n x h. now_own (some r) n x d h;
        both = λ x.
            d.in_weights x
            ∙ ap (λ b. (e == x) || b) (ok.both x)
            ∙ sym (now_present (some r) reverse x d);
        opposite = λ x y h leads. elim (Bool-cases (x == e)) [
          | inl f ↦
              let same : x ≡ e = (==_iff x e).0 f in
              let y_is : r ≡ y = cc (leads, self, same) in
              subst (λ k. Back s' k y) (sym same)
                (subst (λ k. Back s' e k) y_is (r_present, r_from, r_to))
          | inr f ↦ elim (Bool-cases (x == r)) [
            | inl g ↦
                let same : x ≡ r = (==_iff x r).0 g in
                let y_is : e ≡ y = cc (leads, back, same) in
                subst (λ k. Back s' k y) (sym same)
                  (subst (λ k. Back s' r k) y_is (e_present, sym r_to, sym r_from))
            | inr g ↦
                let (there, a, b) =
                  ok.opposite x y (was_present (some r) reverse x d h f)
                    (sym (join_reverse_other e r x s.reverse f g) ∙ leads) in
                (still_present (some r) reverse y d there, a, b)
          ]
        ];
        paired = λ x y h (there, a, b). elim (Bool-cases (x == e)) [
          | inl f ↦
              let same : x ≡ e = (==_iff x e).0 f in
              let y_is : r ≡ y =
                one_edge name s' r y (d.new_trees) r_present there
                  (r_from ∙ ap s.to (sym same) ∙ sym a) (r_to ∙ ap s.from (sym same) ∙ sym b) in
              ap reverse same ∙ self ∙ ap some y_is
          | inr f ↦ elim (Bool-cases (x == r)) [
            | inl g ↦
                let same : x ≡ r = (==_iff x r).0 g in
                let y_is : e ≡ y =
                  one_edge name s' e y (d.new_trees) e_present there
                    (sym r_to ∙ ap s.to (sym same) ∙ sym a)
                    (sym r_from ∙ ap s.from (sym same) ∙ sym b) in
                ap reverse same ∙ back ∙ ap some y_is
            | inr g ↦ elim (Bool-cases (y == e)) [
              | inl k ↦
                  let same : y ≡ e = (==_iff y e).0 k in
                  let x_is : x ≡ r =
                    one_edge name s' x r (d.new_trees) h r_present
                      (sym b ∙ ap s.to same ∙ sym r_from) (sym a ∙ ap s.from same ∙ sym r_to) in
                  absurd (cc (g, (==_iff x r).1 x_is))
              | inr k ↦
                  join_reverse_other e r x s.reverse f g
                  ∙ ok.paired x y (was_present (some r) reverse x d h f)
                      (was_present (some r) reverse y d there k, a, b)
            ]
          ]
        ];
      }

  -- A new edge has entered the trees.
  pub Entered-IsEdges :
      (found : Option ℕ)
      → Entered name s e found trees heavy
      → IsEdges name (with_reverse (join_reverse e found s.reverse))
  Entered-IsEdges none d = alone-IsEdges d
  Entered-IsEdges (some r) d = joined-IsEdges r d
