-- ===== src/Splay/Order.antt =====
-- The nodes of a tree as an ordered list, and what the order gives a search.
use tinc_quic.Common.{ℕ, ◌≡◌, refl, sym, ap, ◌∙◌, ◌⊎◌, inl, inr, false, List, [], ◌∷◌, ◌++◌}
use tinc_quic.Common.{◌==◌, All, Bool-cases, ==_iff}
use Prim.Native.Nat.Ordering.{lt, eq, gt}
use mathlib.Core.List.{append_assoc}
use tinc_quic.Common.Int.{ℤ}
use tinc_quic.Splay.{Tree, branch, sign, empty}
use tinc_quic.Splay.TopDown.{inorder_then, Aligned, At, TreeAll, Behind, Ahead}

-- What a comparison function promises.
pub record IsOrder {D : Type 0} (compare : D → D → ℤ) : Type 0 where
  pub self : (a : D) → sign (compare a a) ≡ eq
  pub flip_lt : (a b : D) → sign (compare a b) ≡ lt → sign (compare b a) ≡ gt
  pub flip_gt : (a b : D) → sign (compare a b) ≡ gt → sign (compare b a) ≡ lt
  pub flip_eq : (a b : D) → sign (compare a b) ≡ eq → sign (compare b a) ≡ eq
  pub lt_lt :
      (a b c : D) → sign (compare a b) ≡ lt → sign (compare b c) ≡ lt → sign (compare a c) ≡ lt
  pub eq_lt :
      (a b c : D) → sign (compare a b) ≡ eq → sign (compare b c) ≡ lt → sign (compare a c) ≡ lt
  pub lt_eq :
      (a b c : D) → sign (compare a b) ≡ lt → sign (compare b c) ≡ eq → sign (compare a c) ≡ lt

pub All-imp :
    {A : Type 0} (P Q : A → Type 0) (xs : List A) → ((x : A) → P x → Q x) → All P xs → All Q xs
All-imp P Q [] f h = tt
All-imp P Q (x ∷ xs) f (hx, h) = (f x hx, All-imp P Q xs f h)

pub TreeAll-imp : (P Q : ℕ → Type 0) (t : Tree) → ((x : ℕ) → P x → Q x) → TreeAll P t → TreeAll Q t
TreeAll-imp P Q empty f h = tt
TreeAll-imp P Q (branch l x r) f (hl, hx, hr) =
    (TreeAll-imp P Q l f hl, f x hx, TreeAll-imp P Q r f hr)

pub All-inorder :
    (P : ℕ → Type 0) (t : Tree) (rest : List ℕ)
    → All P (inorder_then t rest)
    → TreeAll P t × All P rest
unfolding inorder_then
All-inorder P empty rest h = (tt, h)
All-inorder P (branch l x r) rest h =
    let (hl, (hx, behind)) = All-inorder P l (x ∷ inorder_then r rest) h in
    let (hr, hrest) = All-inorder P r rest behind in ((hl, hx, hr), hrest)

pub TreeAll-inorder :
    (P : ℕ → Type 0) (t : Tree) (rest : List ℕ)
    → TreeAll P t
    → All P rest
    → All P (inorder_then t rest)
unfolding inorder_then
TreeAll-inorder P empty rest h k = k
TreeAll-inorder P (branch l x r) rest (hl, hx, hr) k =
    TreeAll-inorder P l (x ∷ inorder_then r rest) hl (hx, TreeAll-inorder P r rest hr k)

-- The nodes of a tree.
abbrev pub inorder : Tree → List ℕ
inorder t = inorder_then t []

pub inorder_then-append : (t : Tree) (rest : List ℕ) → inorder_then t rest ≡ inorder t ++ rest
unfolding inorder_then
inorder_then-append empty rest = refl
inorder_then-append (branch l x r) rest =
    ap (λ ys. inorder_then l (x ∷ ys)) (inorder_then-append r rest)
    ∙ inorder_then-append l (x ∷ (inorder r ++ rest))
    ∙ sym (append_assoc (inorder l) (x ∷ inorder r) rest)
    ∙ ap (λ ys. ys ++ rest) (sym (inorder_then-append l (x ∷ inorder r)))

pub All-append-split : (P : ℕ → Type 0) (xs ys : List ℕ) → All P (xs ++ ys) → All P xs × All P ys
All-append-split P [] ys h = (tt, h)
All-append-split P (x ∷ xs) ys (hx, h) =
    let (here, there) = All-append-split P xs ys h in ((hx, here), there)

pub All-append : (P : ℕ → Type 0) (xs ys : List ℕ) → All P xs → All P ys → All P (xs ++ ys)
All-append P [] ys hx hy = hy
All-append P (x ∷ xs) ys (hx, h) hy = (hx, All-append P xs ys h hy)

module _ {D : Type 0} (compare : D → D → ℤ) (payload : ℕ → D) where
  infix 50 ◌≺◌
  -- One node stands before another.
  abbrev pub ◌≺◌ : ℕ → ℕ → Type 0
  x ≺ y = sign (compare (payload x) (payload y)) ≡ lt

  abbrev pub Ordered : List ℕ → Type 0
  Ordered [] = Unit
  Ordered (x ∷ xs) = All (λ y. x ≺ y) xs × Ordered xs

  pub Ordered-append :
      (xs ys : List ℕ)
      → Ordered (xs ++ ys)
      → Ordered xs × Ordered ys × All (λ x. All (λ y. x ≺ y) ys) xs
  Ordered-append [] ys h = (tt, h, tt)
  Ordered-append (x ∷ xs) ys (hx, h) =
      let (oxs, oys, across) = Ordered-append xs ys h in
      let (here, there) = All-append-split (λ y. x ≺ y) xs ys hx in
      ((here, oxs), oys, (there, across))

  pub append-Ordered :
      (xs ys : List ℕ)
      → Ordered xs
      → Ordered ys
      → All (λ x. All (λ y. x ≺ y) ys) xs
      → Ordered (xs ++ ys)
  append-Ordered [] ys hx hy across = hy
  append-Ordered (x ∷ xs) ys (hx, oxs) hy (here, across) =
      (All-append (λ y. x ≺ y) xs ys hx here, append-Ordered xs ys oxs hy across)

  module _ (order : IsOrder compare) where
    -- A node stands not before itself.
    pub apart : (x y : ℕ) → x ≺ y → (x == y) ≡ false
    apart x y h = elim (Bool-cases (x == y)) [
      | inl e ↦
          let self = ap (λ z. sign (compare (payload x) (payload z))) ((==_iff x y).0 e) in
          absurd (cc (h, self, order.self (payload x)))
      | inr e ↦ e
    ]

    Behind-all :
        (sought : D) (x z : ℕ)
        → At compare payload sought x ⊎ Behind compare payload sought x
        → z ≺ x
        → Behind compare payload sought z
    Behind-all sought x z (inl at) h =
        order.flip_lt (payload z) sought
          (order.lt_eq (payload z) (payload x) sought h (order.flip_eq sought (payload x) at))
    Behind-all sought x z (inr behind) h =
        order.flip_lt (payload z) sought
          (order.lt_lt (payload z) (payload x) sought h (order.flip_gt sought (payload x) behind))

    before_all :
        (sought : D) (x z : ℕ)
        → At compare payload sought x ⊎ Ahead compare payload sought x
        → x ≺ z
        → Ahead compare payload sought z
    before_all sought x z (inl at) h = order.eq_lt sought (payload x) (payload z) at h
    before_all sought x z (inr before) h = order.lt_lt sought (payload x) (payload z) before h

    -- Where the nodes are ordered, every search is right.
    pub Ordered-Aligned :
        (sought : D) (t : Tree) (rest : List ℕ)
        → Ordered (inorder_then t rest)
        → Aligned compare payload sought t × Ordered rest × TreeAll (λ x. All (λ y. x ≺ y) rest) t
    unfolding inorder_then
    Ordered-Aligned sought empty rest h = (tt, h, tt)
    Ordered-Aligned sought (branch l x r) rest h =
        let (al, (x_first, behind), l_first) =
          Ordered-Aligned sought l (x ∷ inorder_then r rest) h in
        let (ar, ordered, r_first) = Ordered-Aligned sought r rest behind in
        let (x_r, x_rest) = All-inorder (λ y. x ≺ y) r rest x_first in
        (
          (
            al,
            ar,
            (λ here. TreeAll-imp _ _ l (λ z k. Behind-all sought x z here (k.0)) l_first),
            (λ here. TreeAll-imp _ _ r (λ z k. before_all sought x z here k) x_r),
          ),
          ordered,
          (
            TreeAll-imp _ _ l (λ z k. (All-inorder (λ y. z ≺ y) r rest (k.1)).1) l_first,
            x_rest,
            r_first,
          ),
        )
