-- ===== src/Edges/Order.antt =====
-- The comparisons of edges order them.
use tinc_quic.Common.{ℕ, ◌≡◌, refl, sym, arith, List, [], ◌∷◌, ap}
use Prim.Native.Nat.{Ordering, eq, gt, lt}
use mathlib.Core.Path.{subst, fun_ext}
use tinc_quic.Common.Int.{ℤ, ◌-ℤ◌, bytes_compare, FitsInt, int_difference, to_int-FitsInt}
use tinc_quic.Edges.{EdgeKey, Edges, edge_compare, edge_weight_compare, edge_key, weight_order}
use tinc_quic.Splay.{sign}
use tinc_quic.Splay.Order.{IsOrder}
use tinc_quic.Subnet.Compare.{first_of}

difference-IsOrder : IsOrder ◌-ℤ◌
unfolding ◌-ℤ◌
difference-IsOrder = record {
  self = λ a. ground arith;
  flip_lt = λ a b h. ground (arith, h);
  flip_gt = λ a b h. ground (arith, h);
  flip_eq = λ a b h. ground (arith, h);
  lt_lt = λ a b c h k. ground (arith, h, k);
  eq_lt = λ a b c h k. ground (arith, h, k);
  lt_eq = λ a b c h k. ground (arith, h, k);
}

abbrev bytes_sign : List ℕ → List ℕ → Ordering
bytes_sign a b = sign (bytes_compare a b)

bytes_self : (a : List ℕ) → bytes_sign a a ≡ eq
unfolding bytes_compare
bytes_self [] = refl
bytes_self (x ∷ xs) = ground (arith, bytes_self xs)

-- Equal comparisons are of equal strings.
pub bytes_same : (a b : List ℕ) → bytes_sign a b ≡ eq → a ≡ b
unfolding bytes_compare
bytes_same [] [] h = refl
bytes_same [] (y ∷ ys) h = absurd (ground (arith, h))
bytes_same (x ∷ xs) [] h = absurd (ground (arith, h))
bytes_same (x ∷ xs) (y ∷ ys) h = grind (arith, h, bytes_same xs ys)

bytes_flip_lt : (a b : List ℕ) → bytes_sign a b ≡ lt → bytes_sign b a ≡ gt
unfolding bytes_compare
bytes_flip_lt [] [] h = absurd cc
bytes_flip_lt [] (y ∷ ys) h = refl
bytes_flip_lt (x ∷ xs) [] h = absurd cc
bytes_flip_lt (x ∷ xs) (y ∷ ys) h = ground (arith, h, bytes_flip_lt xs ys)

bytes_flip_gt : (a b : List ℕ) → bytes_sign a b ≡ gt → bytes_sign b a ≡ lt
unfolding bytes_compare
bytes_flip_gt [] [] h = absurd cc
bytes_flip_gt [] (y ∷ ys) h = absurd cc
bytes_flip_gt (x ∷ xs) [] h = refl
bytes_flip_gt (x ∷ xs) (y ∷ ys) h = ground (arith, h, bytes_flip_gt xs ys)

bytes_lt-lt : (a b c : List ℕ) → bytes_sign a b ≡ lt → bytes_sign b c ≡ lt → bytes_sign a c ≡ lt
unfolding bytes_compare
bytes_lt-lt [] [] c h k = absurd cc
bytes_lt-lt [] (y ∷ ys) [] h k = absurd cc
bytes_lt-lt [] (y ∷ ys) (z ∷ zs) h k = refl
bytes_lt-lt (x ∷ xs) [] c h k = absurd cc
bytes_lt-lt (x ∷ xs) (y ∷ ys) [] h k = absurd cc
bytes_lt-lt (x ∷ xs) (y ∷ ys) (z ∷ zs) h k = ground (arith, h, k, bytes_lt-lt xs ys zs)

bytes_compare-IsOrder : IsOrder bytes_compare
bytes_compare-IsOrder = record {
  self = bytes_self;
  flip_lt = bytes_flip_lt;
  flip_gt = bytes_flip_gt;
  flip_eq = λ a b h. subst (λ z. bytes_sign z a ≡ eq) (bytes_same a b h) (bytes_self a);
  lt_lt = bytes_lt-lt;
  eq_lt = λ a b c h k. subst (λ z. bytes_sign z c ≡ lt) (sym (bytes_same a b h)) k;
  lt_eq = λ a b c h k. subst (λ z. bytes_sign a z ≡ lt) (bytes_same b c k) h;
}

-- One comparison where another one is equal.
first_of-IsOrder :
    {D : Type 0} (f g : D → D → ℤ)
    → IsOrder f
    → IsOrder g
    → ((a b c : D) → sign (f a b) ≡ eq → sign (f b c) ≡ eq → sign (f a c) ≡ eq)
    → IsOrder (λ a b. first_of (f a b) (g a b))
first_of-IsOrder f g u v eq_eq = record {
  self = λ a. ground (arith, u.self a, v.self a);
  flip_lt = λ a b h. ground (arith, h, u.flip_lt a b, u.flip_eq a b, v.flip_lt a b);
  flip_gt = λ a b h. ground (arith, h, u.flip_gt a b, u.flip_eq a b, v.flip_gt a b);
  flip_eq = λ a b h. ground (arith, h, u.flip_eq a b, v.flip_eq a b);
  lt_lt = λ a b c h k.
      ground (arith, h, k, u.lt_lt a b c, u.eq_lt a b c, u.lt_eq a b c, v.lt_lt a b c, eq_eq a b c);
  eq_lt = λ a b c h k. ground (arith, h, k, u.eq_lt a b c, eq_eq a b c, v.eq_lt a b c);
  lt_eq = λ a b c h k. ground (arith, h, k, u.lt_eq a b c, eq_eq a b c, v.lt_eq a b c);
}

-- A comparison of what `f` gives.
on-IsOrder :
    {D E : Type 0} (f : D → E) (compare : E → E → ℤ)
    → IsOrder compare
    → IsOrder (λ a b. compare (f a) (f b))
on-IsOrder f compare o = record {
  self = λ a. o.self (f a);
  flip_lt = λ a b. o.flip_lt (f a) (f b);
  flip_gt = λ a b. o.flip_gt (f a) (f b);
  flip_eq = λ a b. o.flip_eq (f a) (f b);
  lt_lt = λ a b c. o.lt_lt (f a) (f b) (f c);
  eq_lt = λ a b c. o.eq_lt (f a) (f b) (f c);
  lt_eq = λ a b c. o.lt_eq (f a) (f b) (f c);
}

-- No two weights are so far apart that their difference overflows an `int`.
abbrev pub WeightsFit : Edges → Type 0
WeightsFit s = (a b : ℕ) → FitsInt (s.weight a -ℤ s.weight b)

module _ (name : ℕ → List ℕ) where
  pub edge_compare-IsOrder : IsOrder (edge_compare name)
  unfolding edge_compare
  edge_compare-IsOrder = on-IsOrder (λ a. name a.key_to) bytes_compare bytes_compare-IsOrder

  -- The comparison, if no difference overflows.
  abbrev plain_compare : EdgeKey → EdgeKey → ℤ
  plain_compare a b = first_of (a.key_weight -ℤ b.key_weight) (
      first_of (bytes_compare (name a.key_from) (name b.key_from))
        (bytes_compare (name a.key_to) (name b.key_to)))

  plain_compare-IsOrder : IsOrder plain_compare
  unfolding ◌-ℤ◌
  plain_compare-IsOrder =
      first_of-IsOrder (λ a b. a.key_weight -ℤ b.key_weight)
        (λ a b.
          first_of (bytes_compare (name a.key_from) (name b.key_from))
            (bytes_compare (name a.key_to) (name b.key_to)))
        (on-IsOrder (λ a. a.key_weight) ◌-ℤ◌ difference-IsOrder)
        (first_of-IsOrder (λ a b. bytes_compare (name a.key_from) (name b.key_from))
          (λ a b. bytes_compare (name a.key_to) (name b.key_to))
          (on-IsOrder (λ a. name a.key_from) bytes_compare bytes_compare-IsOrder)
          (on-IsOrder (λ a. name a.key_to) bytes_compare bytes_compare-IsOrder)
          (λ a b c h k.
            subst (λ z. bytes_sign z (name c.key_from) ≡ eq) (sym (bytes_same _ _ h)) k))
        (λ a b c h k. ground (arith, h, k))

  pub weight_order-IsOrder : (s : Edges) → WeightsFit s → IsOrder (weight_order name s)
  unfolding edge_weight_compare int_difference
  weight_order-IsOrder s fit =
      subst IsOrder
        (fun_ext (λ a. fun_ext (λ b.
          ap
            (λ d. first_of d (
              first_of (bytes_compare (name (s.from a)) (name (s.from b)))
                (bytes_compare (name (s.to a)) (name (s.to b)))))
            (sym (to_int-FitsInt (s.weight a -ℤ s.weight b) (fit a b))))))
        (on-IsOrder (edge_key s) plain_compare plain_compare-IsOrder)
