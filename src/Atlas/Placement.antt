-- ===== src/Atlas/Placement.antt =====
-- Where `allocPlace` puts a pixmap, and what is free after it, as sets of points.
use opl_future_beta.Base.{
  ℕ, ◌+◌, ◌-◌, ◌≤◌, ◌<◌, ◌≡◌, ap, refl, sym, transport, if-elim, ◌⊎◌, inl, inr, ltb, arith,
}
use opl_future_beta.Atlas.{
  Alloc, null, node, Place, placed, full, fault, alloc_new, alloc_fits, split, try_children,
  alloc_place,
}

-- The points of a rectangle.
abbrev pub In : (x y w h a b : ℕ) → Type 0
In x y w h a b = (x ≤ a) × (a < x + w) × (y ≤ b) × (b < y + h)

-- The points that are still free: those of the leaves.
abbrev pub Free : Alloc → (a b : ℕ) → Type 0
Free null a b = ⊥
Free (node x y w h null null) a b = In x y w h a b
Free (node x y w h l1 l2) a b = Free l1 a b ⊎ Free l2 a b

-- A node lies in a rectangle.
abbrev pub Within : (x y w h : ℕ) → Alloc → Type 0
Within x y w h null = ⊥
Within x y w h (node x' y' w' h' l1 l2) =
    (x ≤ x') × (y ≤ y') × (x' + w' ≤ x + w) × (y' + h' ≤ y + h)

-- A node is a leaf, or has two children that lie in it and have no free point in common.
abbrev pub IsTree : Alloc → Type 0
IsTree null = ⊥
IsTree (node x y w h null null) = Unit
IsTree (node x y w h l1 l2) =
    Within x y w h l1
    × Within x y w h l2
    × IsTree l1
    × IsTree l2
    × ((a b : ℕ) → Free l1 a b → Free l2 a b → ⊥)

-- What a placement does: the pixmap takes free points, those points are free no longer, no others
-- become free, and the tree stays a tree over the same rectangle. Where there is no place, nothing
-- changes; no NULL pointer is followed.
pub record Took (t : Alloc) (width height x y : ℕ) (t' : Alloc) : Type 0 where
  pub was_free : (a b : ℕ) → In x y width height a b → Free t a b
  pub only_less : (a b : ℕ) → Free t' a b → Free t a b
  pub taken : (a b : ℕ) → In x y width height a b → Free t' a b → ⊥
  pub tree : IsTree t'
  pub bounds : (p q r s : ℕ) → Within p q r s t → Within p q r s t'

abbrev pub Places : (t : Alloc) (width height : ℕ) → Place × Alloc → Type 0
Places t width height (placed x y, t') = Took t width height x y t'
Places t width height (full, t') = t' ≡ t
Places t width height (fault, t') = ⊥

split-Took :
    (x y w h width height : ℕ)
    → width ≤ w
    → height ≤ h
    → Took (node x y w h null null) width height x y (split x y w h width height)
unfolding split alloc_new
split-Took x y w h width height lw lh =
    if-elim (Took (node x y w h null null) width height x y) (ltb (w - width) (h - height))
      (λ _. record {
        was_free = λ a b i. omega arith;
        only_less = λ a b f. elim f [ inl l ↦ omega arith | inr r ↦ omega arith ];
        taken = λ a b i f. elim f [ inl l ↦ omega arith | inr r ↦ omega arith ];
        tree = (omega arith, omega arith, tt, tt, λ a b l r. omega arith);
        bounds = λ p q r s h. h;
      })
      (λ _. record {
        was_free = λ a b i. omega arith;
        only_less = λ a b f. elim f [ inl l ↦ omega arith | inr r ↦ omega arith ];
        taken = λ a b i f. elim f [ inl l ↦ omega arith | inr r ↦ omega arith ];
        tree = (omega arith, omega arith, tt, tt, λ a b l r. omega arith);
        bounds = λ p q r s h. h;
      })

-- A tree is no NULL pointer, so `Free` and `IsTree` of a node above two trees compute.
Free-node :
    (x y w h : ℕ) (l1 l2 : Alloc)
    → IsTree l1
    → IsTree l2
    → (a b : ℕ) → Free (node x y w h l1 l2) a b ≡ (Free l1 a b ⊎ Free l2 a b)
Free-node x y w h null l2 h1 h2 a b = absurd h1
Free-node x y w h (node _ _ _ _ _ _) null h1 h2 a b = absurd h2
Free-node x y w h (node _ _ _ _ _ _) (node _ _ _ _ _ _) h1 h2 a b = refl

IsTree-node :
    (x y w h : ℕ) (l1 l2 : Alloc)
    → Within x y w h l1
    → Within x y w h l2
    → IsTree l1
    → IsTree l2
    → ((a b : ℕ) → Free l1 a b → Free l2 a b → ⊥)
    → IsTree (node x y w h l1 l2)
IsTree-node x y w h null l2 w1 w2 h1 h2 d = absurd h1
IsTree-node x y w h (node _ _ _ _ _ _) null w1 w2 h1 h2 d = absurd h2
IsTree-node x y w h (node _ _ _ _ _ _) (node _ _ _ _ _ _) w1 w2 h1 h2 d = (w1, w2, h1, h2, d)

module _ (x y w h width height : ℕ) (l1 l2 : Alloc) (w1 : Within x y w h l1)
    (w2 : Within x y w h l2) (h1 : IsTree l1) (h2 : IsTree l2)
    (apart : (a b : ℕ) → Free l1 a b → Free l2 a b → ⊥) where
  first-Took :
      (u v : ℕ) (l1' : Alloc)
      → Took l1 width height u v l1'
      → Took (node x y w h l1 l2) width height u v (node x y w h l1' l2)
  first-Took u v l1' k = record {
    was_free =
        λ a b i. transport (sym (Free-node x y w h l1 l2 h1 h2 a b)) (inl (k.was_free a b i));
    only_less = λ a b f.
        transport (sym (Free-node x y w h l1 l2 h1 h2 a b))
          (elim (transport (Free-node x y w h l1' l2 (k.tree) h2 a b) f) [
            | inl l ↦ inl (k.only_less a b l)
            | inr r ↦ inr r
          ]);
    taken = λ a b i f. elim (transport (Free-node x y w h l1' l2 (k.tree) h2 a b) f) [
      | inl l ↦ k.taken a b i l
      | inr r ↦ apart a b (k.was_free a b i) r
    ];
    tree =
        IsTree-node x y w h l1' l2 (k.bounds x y w h w1) w2 (k.tree) h2
          (λ a b l r. apart a b (k.only_less a b l) r);
    bounds = λ p q r s h. h;
  }

  second-Took :
      (u v : ℕ) (l2' : Alloc)
      → Took l2 width height u v l2'
      → Took (node x y w h l1 l2) width height u v (node x y w h l1 l2')
  second-Took u v l2' k = record {
    was_free =
        λ a b i. transport (sym (Free-node x y w h l1 l2 h1 h2 a b)) (inr (k.was_free a b i));
    only_less = λ a b f.
        transport (sym (Free-node x y w h l1 l2 h1 h2 a b))
          (elim (transport (Free-node x y w h l1 l2' h1 (k.tree) a b) f) [
            | inl l ↦ inl l
            | inr r ↦ inr (k.only_less a b r)
          ]);
    taken = λ a b i f. elim (transport (Free-node x y w h l1 l2' h1 (k.tree) a b) f) [
      | inl l ↦ apart a b l (k.was_free a b i)
      | inr r ↦ k.taken a b i r
    ];
    tree =
        IsTree-node x y w h l1 l2' w1 (k.bounds x y w h w2) h1 (k.tree)
          (λ a b l r. apart a b l (k.only_less a b r));
    bounds = λ p q r s h. h;
  }

  children-Places :
      (r1 r2 : Place × Alloc)
      → Places l1 width height r1
      → Places l2 width height r2
      → Places (node x y w h l1 l2) width height (try_children x y w h l1 l2 r1 r2)
  unfolding try_children
  children-Places (placed u v, l1') r2 k1 k2 = first-Took u v l1' k1
  children-Places (full, l1') (placed u v, l2') k1 k2 = second-Took u v l2' k2
  children-Places (full, l1') (full, l2') k1 k2 = ap (λ t. node x y w h l1 t) k2
  children-Places (full, l1') (fault, l2') k1 k2 = k2
  children-Places (fault, l1') r2 k1 k2 = absurd k1

-- `allocPlace` on a well formed tree does what `Places` says: a request that is placed takes a
-- rectangle of its size out of the free points of the tree, and one that is not leaves the tree as it
-- was.
pub alloc_place-Places :
    (t : Alloc) (width height : ℕ) → IsTree t → Places t width height (alloc_place t width height)
unfolding alloc_place
alloc_place-Places null width height h = absurd h
alloc_place-Places (node x y w h null null) width height t =
    if-elim (Places (node x y w h null null) width height) (alloc_fits w h width height)
      (λ f. split-Took x y w h width height (ground arith) (ground arith)) (λ _. refl)
alloc_place-Places (node x y w h null (node _ _ _ _ _ _)) width height t = absurd (t.0)
alloc_place-Places (node x y w h (node a b c d e f) null) width height t = absurd (t.1)
alloc_place-Places (node x y w h (node a b c d e f) (node a' b' c' d' e' f')) width height t =
    let l1 = node a b c d e f in
    let l2 = node a' b' c' d' e' f' in
    if-elim (Places (node x y w h l1 l2) width height) (alloc_fits w h width height)
      (λ _.
        children-Places x y w h width height l1 l2 (t.0) (t.1) (t.2) (t.3) (t.4)
          (alloc_place l1 width height) (alloc_place l2 width height)
          (alloc_place-Places (node a b c d e f) width height (t.2))
          (alloc_place-Places (node a' b' c' d' e' f') width height (t.3)))
      (λ _. refl)
