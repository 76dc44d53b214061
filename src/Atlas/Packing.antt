-- ===== src/Atlas/Packing.antt =====
-- Any number of pixmaps, placed one after the other.
use opl_future_beta.Base.{ℕ, ◌≤◌, ◌≡◌, refl, sym, subst, ◌⊎◌, inl, inr, true, arith, List, [], ◌∷◌}
use opl_future_beta.Atlas.{
  Alloc, null, node, Place, placed, full, fault, alloc_new, alloc_fits, try_children, alloc_place,
}
use opl_future_beta.Atlas.Placement.{In, Free, Within, IsTree, Places, alloc_place-Places}

-- A placed rectangle.
pub record Rect : Type 0 where
  pub x : ℕ
  pub y : ℕ
  pub w : ℕ
  pub h : ℕ

-- The rectangle that a placement takes, in front of those taken later.
abbrev pub taken_by : Place → (width height : ℕ) → List Rect → List Rect
taken_by (placed x y) width height rects = record { x = x; y = y; w = width; h = height } ∷ rects
taken_by full width height rects = rects
taken_by fault width height rects = rects

-- The rectangles that a sequence of requests gets; a request without a place gets none.
unfoldable pub place_all : List (ℕ × ℕ) → Alloc → List Rect
place_all [] t = []
place_all ((width, height) ∷ rest) t =
    let (p, t') = alloc_place t width height in taken_by p width height (place_all rest t')

abbrev pub InRect : Rect → (a b : ℕ) → Type 0
InRect r a b = In (r.x) (r.y) (r.w) (r.h) a b

abbrev pub All {ℓ κ} : {A : Type ℓ} → (A → Type κ) → List A → Type κ
All P [] = Unit
All P (x ∷ xs) = P x × All P xs

-- No point lies in two rectangles of the list.
abbrev pub Disjoint : List Rect → Type 0
Disjoint [] = Unit
Disjoint (r ∷ rs) = All (λ s. (a b : ℕ) → InRect r a b → InRect s a b → ⊥) rs × Disjoint rs

-- Every point of the rectangle is free in the tree.
abbrev IsFree : Alloc → Rect → Type 0
IsFree t r = (a b : ℕ) → InRect r a b → Free t a b

All-mono :
    {A : Type 0} {P Q : A → Type 0} (xs : List A) → ((x : A) → P x → Q x) → All P xs → All Q xs
All-mono [] f h = tt
All-mono (x ∷ xs) f h = (f x (h.0), All-mono xs f (h.1))

record Packed (t : Alloc) (rects : List Rect) : Type 0 where
  free : All (IsFree t) rects
  apart : Disjoint rects

taken-Packed :
    (t : Alloc) (width height : ℕ) (p : Place) (t' : Alloc) (rects : List Rect)
    → Places t width height (p, t')
    → Packed t' rects
    → Packed t (taken_by p width height rects)
taken-Packed t width height (placed x y) t' rects k v = record {
  free = (k.was_free, All-mono rects (λ r f a b i. k.only_less a b (f a b i)) (v.free));
  apart = (All-mono rects (λ r f a b i j. k.taken a b i (f a b j)) (v.free), v.apart);
}
taken-Packed t width height full t' rects k v = subst (λ s. Packed s rects) k v
taken-Packed t width height fault t' rects k v = absurd k

still-IsTree :
    (t : Alloc) (width height : ℕ) (r : Place × Alloc)
    → IsTree t
    → Places t width height r
    → IsTree (r.1)
still-IsTree t width height (placed x y, t') h k = k.tree
still-IsTree t width height (full, t') h k = subst IsTree (sym k) h
still-IsTree t width height (fault, t') h k = absurd k

place_all-Packed :
    (requests : List (ℕ × ℕ)) (t : Alloc) → IsTree t → Packed t (place_all requests t)
unfolding place_all
place_all-Packed [] t h = record { free = tt; apart = tt }
place_all-Packed ((width, height) ∷ rest) t h =
    let r = alloc_place t width height in
    let k = alloc_place-Places t width height h in
    taken-Packed t width height (r.0) (r.1) (place_all rest (r.1)) k
      (place_all-Packed rest (r.1) (still-IsTree t width height r h k))

-- The pixmaps placed in a new atlas, in any number and of any sizes, lie inside it, and no two of them
-- have a point in common.
pub place_all-Disjoint :
    (width height : ℕ) (requests : List (ℕ × ℕ))
    → let rects = place_all requests (alloc_new 0 0 width height) in
      All (λ r. (a b : ℕ) → InRect r a b → In 0 0 width height a b) rects × Disjoint rects
unfolding alloc_new
place_all-Disjoint width height requests =
    let v = place_all-Packed requests (node 0 0 width height null null) tt in (v.free, v.apart)

-- A leaf of the tree is large enough.
abbrev pub HasRoom : Alloc → (width height : ℕ) → Type 0
HasRoom null width height = ⊥
HasRoom (node x y w h null null) width height = (width ≤ w) × (height ≤ h)
HasRoom (node x y w h l1 l2) width height = HasRoom l1 width height ⊎ HasRoom l2 width height

-- A leaf that is large enough lies in nodes that are, too.
HasRoom-fits :
    (x y w h : ℕ) (t : Alloc) (width height : ℕ)
    → IsTree t
    → Within x y w h t
    → HasRoom t width height
    → (width ≤ w) × (height ≤ h)
HasRoom-fits x y w h null width height t i r = absurd t
HasRoom-fits x y w h (node a b c d null null) width height t i r = omega arith
HasRoom-fits x y w h (node a b c d null (node _ _ _ _ _ _)) width height t i r = absurd (t.0)
HasRoom-fits x y w h (node a b c d (node _ _ _ _ _ _) null) width height t i r = absurd (t.1)
HasRoom-fits x y w h (node a b c d (node e f g k l m) (node e' f' g' k' l' m')) width height t i
      (inl r) =
    omega (arith, HasRoom-fits a b c d (node e f g k l m) width height (t.2) (t.0) r)
HasRoom-fits x y w h (node a b c d (node e f g k l m) (node e' f' g' k' l' m')) width height t i
      (inr r) =
    omega (arith, HasRoom-fits a b c d (node e' f' g' k' l' m') width height (t.3) (t.1) r)

children-full :
    (x y w h : ℕ) (l1 l2 : Alloc) (r1 r2 : Place × Alloc)
    → (try_children x y w h l1 l2 r1 r2).0 ≡ full
    → (r1.0 ≡ full) × (r2.0 ≡ full)
unfolding try_children
children-full x y w h l1 l2 (placed u v, l1') r2 e = cc
children-full x y w h l1 l2 (full, l1') (p, l2') e = (refl, e)
children-full x y w h l1 l2 (fault, l1') r2 e = cc

-- In a well formed tree, a request is turned down only if no free leaf of the tree is large enough for it.
pub alloc_place-full :
    (t : Alloc) (width height : ℕ)
    → IsTree t
    → (alloc_place t width height).0 ≡ full
    → HasRoom t width height
    → ⊥
unfolding alloc_place
alloc_place-full null width height t e r = absurd t
alloc_place-full (node x y w h null null) width height t e r = ground arith
alloc_place-full (node x y w h null (node _ _ _ _ _ _)) width height t e r = absurd (t.0)
alloc_place-full (node x y w h (node _ _ _ _ _ _) null) width height t e r = absurd (t.1)
alloc_place-full (node x y w h (node a b c d f g) (node a' b' c' d' f' g')) width height t e r =
    let l1 = node a b c d f g in
    let l2 = node a' b' c' d' f' g' in
    let fits =
      HasRoom-fits x y w h (node x y w h l1 l2) width height t
        (omega arith, omega arith, omega arith, omega arith) r in
    let fit : alloc_fits w h width height ≡ true = ground arith in
    let both =
      children-full x y w h l1 l2 (alloc_place l1 width height) (alloc_place l2 width height)
        (simp fit at e) in
    elim r [
      | inl r1 ↦ alloc_place-full (node a b c d f g) width height (t.2) (both.0) r1
      | inr r2 ↦ alloc_place-full (node a' b' c' d' f' g') width height (t.3) (both.1) r2
    ]
