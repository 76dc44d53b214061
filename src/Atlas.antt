-- ===== src/Atlas.antt =====
-- The texture atlas of src/atlas.c: a tree of rectangles in which pixmaps are placed.
pub mod Placement
pub mod Packing
pub mod Copying
mod Tests
use Prim.Native.Nat.{compare, Ordering}
use opl_future_beta.Base.{
  ◌%◌, ◌^◌, ℕ, zero, suc, ◌+◌, ◌-◌, ◌*◌, Bool, true, false, ◌&&◌, List, [], ◌∷◌, Option, none, some,
  ltb, leb, ◌==◌, if◌then◌else◌,
}

-- `struct atlas_allocation_t`; `null` is the NULL pointer.
pub data Alloc : Type 0 where
  null : Alloc
  node : (x y w h : ℕ) → Alloc → Alloc → Alloc

-- What `allocPlace` returns: the node where the pixmap goes, by its position; NULL; or no result at
-- all, because it follows a NULL pointer.
pub data Place : Type 0 where
  placed : (x y : ℕ) → Place
  full : Place
  fault : Place

unfoldable pub alloc_new : (x y width height : ℕ) → Alloc
alloc_new x y width height = node x y width height null null

abbrev pub is_null : Alloc → Bool
is_null null = true
is_null (node x y w h l1 l2) = false

-- `ALLOC_FITS` and `ALLOC_ISFREE`.
abbrev pub alloc_fits : (w h width height : ℕ) → Bool
alloc_fits w h width height = leb width w && leb height h

abbrev pub alloc_isfree : Alloc → Alloc → Bool
alloc_isfree l1 l2 = is_null l1 && is_null l2

-- The node with the space beside the pixmap split into two leaves.
unfoldable pub split : (x y w h width height : ℕ) → Alloc
unfolding alloc_new
split x y w h width height =
    if ltb (w - width) (h - height)
    then node x y w h (alloc_new (x + width) y (w - width) height)
        (alloc_new x (y + height) w (h - height))
    else node x y w h (alloc_new x (y + height) width (h - height))
        (alloc_new (x + width) y (w - width) h)

-- The second child is tried where the first one has no place.
unfoldable pub try_children :
    (x y w h : ℕ) (l1 l2 : Alloc) → Place × Alloc → Place × Alloc → Place × Alloc
try_children x y w h l1 l2 (placed a b, l1') r = (placed a b, node x y w h l1' l2)
try_children x y w h l1 l2 (full, l1') (p, l2') = (p, node x y w h l1 l2')
try_children x y w h l1 l2 (fault, l1') r = (fault, node x y w h l1 l2)

unfoldable pub alloc_place : Alloc → (width height : ℕ) → Place × Alloc
unfolding split try_children
alloc_place null width height = (fault, null)
alloc_place (node x y w h l1 l2) width height =
    let r1 = alloc_place l1 width height in
    let r2 = alloc_place l2 width height in
    if alloc_fits w h width height
    then (if alloc_isfree l1 l2
        then (placed x y, split x y w h width height)
        else try_children x y w h l1 l2 r1 r2)
    else (full, node x y w h l1 l2)

-- The part of `atlas_t` that decides where a pixmap goes: the tree, and the pixel format of the
-- surface.
pub record Atlas : Type 0 where
  pub allocation : Alloc
  pub psm : ℕ

unfoldable pub atlas_new : (width height psm : ℕ) → Atlas
unfolding alloc_new
atlas_new width height psm = record { allocation = alloc_new 0 0 width height; psm = psm }

-- `GS_PSM_CT32`, `GS_PSM_CT24`, `GS_PSM_CT16`, `GS_PSM_CT16S` and `GS_PSM_T8` are given by the
-- graphics library.
pub record Formats : Type 0 where
  pub ct32 : ℕ
  pub ct24 : ℕ
  pub ct16 : ℕ
  pub ct16s : ℕ
  pub t8 : ℕ

-- `allocation->w`
abbrev pub root_width : Alloc → ℕ
root_width null = 0
root_width (node x y w h l1 l2) = w

unfoldable pub pixel_size : Formats → ℕ → ℕ
pixel_size f psm = elim (compare psm (f.ct32)) [
  | Ordering.eq ↦ 4
  | _ ↦ elim (compare psm (f.ct24)) [
    | Ordering.eq ↦ 4
    | _ ↦ elim (compare psm (f.ct16)) [
      | Ordering.eq ↦ 2
      | _ ↦ elim (compare psm (f.ct16s)) [
        | Ordering.eq ↦ 2
        | _ ↦ elim (compare psm (f.t8)) [ Ordering.eq ↦ 1 | _ ↦ 0 ]
      ]
    ]
  ]
]

-- The `memcpy` calls of `atlasCopyData`, each as its offset in the surface and its size: `rows` more
-- rows, the next one at `offset`.
unfoldable pub copy_rows : (ps stride width offset rows : ℕ) → List (ℕ × ℕ)
copy_rows ps stride width offset zero = []
copy_rows ps stride width offset (suc rows) =
    (offset, width * ps) ∷ copy_rows ps stride width (offset + ps * stride) rows

unfoldable pub atlas_copy_data : Formats → Atlas → (x y width height : ℕ) → List (ℕ × ℕ)
unfolding copy_rows
atlas_copy_data f a x y width height =
    let ps = pixel_size f (a.psm) in
    let stride = root_width (a.allocation) in
    if ps == 0 then [] else copy_rows ps stride width (ps * (y * stride + x)) height

-- `atlasPlace`, on `size_t` of 32 bits: the place of the pixmap, the copies made, and the atlas after it. `surface` says
-- whether there is a pixmap.
unfoldable pub atlas_place :
    Formats → Atlas → (width height : ℕ) (surface : Bool) → Place × List (ℕ × ℕ) × Atlas
atlas_place f a width height false = (full, [], a)
atlas_place f a width height true =
    let (p, t) = alloc_place (a.allocation) ((width + 1) % 2 ^ 32) ((height + 1) % 2 ^ 32) in
    (
      p,
      elim p [ placed x y ↦ atlas_copy_data f a x y width height | full ↦ [] | fault ↦ [] ],
      record a { allocation = t },
    )
