-- ===== src/Atlas/Copying.antt =====
-- The copies of `atlasCopyData` stay inside the surface.
use opl_future_beta.Base.{
  List, ◌%◌, ◌^◌, subst₂, ℕ, zero, suc, ◌+◌, ◌*◌, ◌≤◌, ◌<◌, ◌≡◌, refl, inl, inr, Bool, true, false,
  ◌==◌, if-elim, arith, [],
}
use opl_future_beta.Atlas.{
  Alloc, null, node, Place, placed, full, fault, Atlas, Formats, pixel_size, copy_rows, alloc_place,
  atlas_copy_data, atlas_place,
}
use opl_future_beta.Atlas.Placement.{In, Free, Within, IsTree, Places, alloc_place-Places}
use opl_future_beta.Atlas.Packing.{All}

-- A `memcpy` ends inside a surface of so many bytes.
abbrev pub Ends : ℕ → ℕ × ℕ → Type 0
Ends bytes (offset, size) = offset + size ≤ bytes

mul_mono : (k a b : ℕ) → a ≤ b → k * a ≤ k * b
mul_mono k a b h = grind arith

row_ends :
    (ps stride x width y height : ℕ)
    → x + width ≤ stride
    → y < height
    → ps * (y * stride + x) + width * ps ≤ ps * (height * stride)
row_ends ps stride x width y height fit lt =
    let a : y * stride + stride ≤ height * stride = grind arith in
    let b : y * stride + x + width ≤ height * stride = omega arith in
    let c : ps * (y * stride + x + width) ≤ ps * (height * stride) = mul_mono ps _ _ b in
    omega arith

copy_rows-Ends :
    (ps stride x width height rows y offset : ℕ)
    → x + width ≤ stride
    → y + rows ≤ height
    → offset ≡ ps * (y * stride + x)
    → All (Ends (ps * (height * stride))) (copy_rows ps stride width offset rows)
unfolding copy_rows
copy_rows-Ends ps stride x width height zero y offset fit le e = tt
copy_rows-Ends ps stride x width height (suc rows) y offset fit le e = (
  omega (arith, row_ends ps stride x width y height fit (omega arith)),
  copy_rows-Ends ps stride x width height rows (y + 1) (offset + ps * stride) fit (omega arith)
      (omega arith),
)

-- A free point of a tree lies in every rectangle that the tree lies in.
Free-Within :
    (t : Alloc) (x y w h a b : ℕ) → IsTree t → Within x y w h t → Free t a b → In x y w h a b
Free-Within null x y w h a b t i f = absurd t
Free-Within (node x' y' w' h' null null) x y w h a b t i f = omega arith
Free-Within (node x' y' w' h' null (node _ _ _ _ _ _)) x y w h a b t i f = absurd (t.0)
Free-Within (node x' y' w' h' (node _ _ _ _ _ _) null) x y w h a b t i f = absurd (t.1)
Free-Within (node x' y' w' h' (node c d e g k l) (node c' d' e' g' k' l')) x y w h a b t i (inl f) =
    omega (arith, Free-Within (node c d e g k l) x' y' w' h' a b (t.2) (t.0) f)
Free-Within (node x' y' w' h' (node c d e g k l) (node c' d' e' g' k' l')) x y w h a b t i (inr f) =
    omega (arith, Free-Within (node c' d' e' g' k' l') x' y' w' h' a b (t.3) (t.1) f)

-- The copies made for a pixmap, by where it was placed.
place-Ends :
    (f : Formats) (a : Atlas) (W H width height : ℕ) (p : Place) (t' : Alloc)
    → (l1 l2 : Alloc) → a.allocation ≡ node 0 0 W H l1 l2
    → IsTree (a.allocation)
    → Places (a.allocation) (width + 1) (height + 1) (p, t')
    → All
        (Ends (pixel_size f (a.psm) * (H * W)))
        (elim p [ placed x y ↦ atlas_copy_data f a x y width height | full ↦ [] | fault ↦ [] ])
unfolding atlas_copy_data
place-Ends f a W H width height (placed x y) t' l1 l2 e t k = rw e (
    if-elim (All (Ends (pixel_size f (a.psm) * (H * W)))) (pixel_size f (a.psm) == 0) (λ _. tt)
      (λ _.
        copy_rows-Ends (pixel_size f (a.psm)) W x width H height y _ (omega (arith, corner))
          (omega (arith, corner)) refl))
  where
    corner : In 0 0 W H (x + width) (y + height)
    corner =
        Free-Within (a.allocation) 0 0 W H (x + width) (y + height) t
          (rw e (omega arith, omega arith, omega arith, omega arith))
          (k.was_free (x + width) (y + height) (omega arith))
place-Ends f a W H width height full t' l1 l2 e t k = tt
place-Ends f a W H width height fault t' l1 l2 e t k = absurd k

-- No copy of `atlasPlace`, for a pixmap whose width and height with the line added to them are below 2^32, reaches
-- past the surface of `W` times `H` pixels, whose tree is that of an atlas of this size.
pub atlas_place-Ends :
    (f : Formats) (a : Atlas) (W H : ℕ) (l1 l2 : Alloc) (width height : ℕ) (surface : Bool)
    → width + 1 < 2 ^ 32
    → height + 1 < 2 ^ 32
    → a.allocation ≡ node 0 0 W H l1 l2
    → IsTree (a.allocation)
    → All (Ends (pixel_size f (a.psm) * (H * W))) ((atlas_place f a width height surface).1)
unfolding atlas_place
atlas_place-Ends f a W H l1 l2 width height false u v e t = tt
atlas_place-Ends f a W H l1 l2 width height true u v e t =
    let w : width + 1 ≡ (width + 1) % 2 ^ 32 = omega (arith, u) in
    let h : height + 1 ≡ (height + 1) % 2 ^ 32 = omega (arith, v) in
    subst₂ (λ w h. All (Ends (pixel_size f (a.psm) * (H * W))) (copies w h)) w h
      (place-Ends f a W H width height ((alloc_place (a.allocation) (width + 1) (height + 1)).0)
        ((alloc_place (a.allocation) (width + 1) (height + 1)).1) l1 l2 e t
        (alloc_place-Places (a.allocation) (width + 1) (height + 1) t))
  where
    copies : ℕ → ℕ → List (ℕ × ℕ)
    copies w h = elim (alloc_place (a.allocation) w h).0 [
      | placed x y ↦ atlas_copy_data f a x y width height
      | full ↦ []
      | fault ↦ []
    ]
