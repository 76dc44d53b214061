-- ===== src/Atlas/Tests.antt =====
-- An atlas of 8 by 8 pixels.
use opl_future_beta.Base.{arith, ℕ, ◌*◌, ◌≡◌, refl, true, List, [], ◌∷◌}
use opl_future_beta.Atlas.{
  null, node, Atlas, Formats, alloc_new, alloc_place, atlas_new, atlas_place, pixel_size,
  atlas_copy_data,
}
use opl_future_beta.Atlas.Placement.{In, Places, alloc_place-Places}
use opl_future_beta.Atlas.Packing.{All, Disjoint, InRect, place_all, place_all-Disjoint}
use opl_future_beta.Atlas.Copying.{Ends, atlas_place-Ends}

abbrev formats : Formats
formats = record { ct32 = 0; ct24 = 1; ct16 = 2; ct16s = 10; t8 = 19 }

abbrev small_atlas : Atlas
small_atlas = atlas_new 8 8 0

abbrev requests : List (ℕ × ℕ)
requests = (5, 3) ∷ (3, 4) ∷ (9, 1) ∷ (4, 4) ∷ []

place_all-Disjoint_example :
    let rects = place_all requests (alloc_new 0 0 8 8) in
    All (λ r. (a b : ℕ) → InRect r a b → In 0 0 8 8 a b) rects × Disjoint rects
place_all-Disjoint_example = place_all-Disjoint 8 8 requests

requests_test :
    place_all requests (alloc_new 0 0 8 8)
    ≡ record { x = 0; y = 0; w = 5; h = 3 }
      ∷ record { x = 0; y = 3; w = 3; h = 4 }
      ∷ record { x = 3; y = 3; w = 4; h = 4 }
      ∷ []
unfolding place_all alloc_place alloc_new
requests_test = refl

alloc_place-Places_example :
    Places (node 0 0 8 8 null null) 5 3 (alloc_place (node 0 0 8 8 null null) 5 3)
alloc_place-Places_example = alloc_place-Places (node 0 0 8 8 null null) 5 3 tt

atlas_place-Ends_example :
    All
      (Ends (pixel_size formats (small_atlas.psm) * (8 * 8)))
      ((atlas_place formats small_atlas 4 2 true).1)
unfolding atlas_new alloc_new
atlas_place-Ends_example =
    atlas_place-Ends formats small_atlas 8 8 null null 4 2 true (omega arith) (omega arith) refl tt

atlas_place_test : (atlas_place formats small_atlas 4 2 true).1 ≡ (0, 16) ∷ (32, 16) ∷ []
unfolding atlas_place alloc_place atlas_new alloc_new atlas_copy_data pixel_size
atlas_place_test = refl
