-- ===== src/Selection/Moves.antt =====
-- The moves of src/selection.rs under `map_selections`.
use teehee.Common.{
  ℕ, zero, suc, ◌+◌, ◌≤◌, ◌<◌, ◌≡◌, refl, inl, none, List, [], ◌∷◌, usize_mod, arith,
}
use teehee.Region
use teehee.Region.{
  SelRegion, Direction, up, down, left, right, new, with_main, simple_move, simple_extend, jump_to,
  extend_to, swap_caret, collapse, to_backward, to_forward, jump_to_boundary, merge,
}
use teehee.Region.Caret.{
  Exact, moved_caret_mono, moved_caret-le, moved_caret-clamped, boundary_caret_mono,
}
use teehee.Selection.{Selection, map_selections, map_loop, note_main, push_regions, push_region}
use teehee.Selection.Valid.{Valid, InDocument}
use teehee.Selection.Single.{Returns, MapsInOrder, map_selections-MapsInOrder}

-- In an empty document there is one region, and a closure that keeps it keeps the selection.
map_selections-empty :
    (regions : List SelRegion) (main : ℕ) (f : SelRegion → SelRegion)
    → ((r : SelRegion) → f r ≡ r)
    → Valid (record { regions = regions; main_selection = main })
    → InDocument 0 (record { regions = regions; main_selection = main })
    → Returns 0 (record { regions = regions; main_selection = main }) (λ r. f r ∷ [])
unfolding map_selections map_loop note_main push_region push_regions
map_selections-empty [] main f same v d = absurd v.main_at
map_selections-empty (r ∷ []) zero f same v d = record {
  made = record { regions = r ∷ []; main_selection = 0 };
  returns = rw (same r) (ground arith);
  valid = v;
  within = d;
}
map_selections-empty (r ∷ []) (suc n) f same v d = absurd v.main_at.1
map_selections-empty (r ∷ r' ∷ rs) main f same v d = absurd (ground (arith, v.sorted.0.0))

simple_move-MapsInOrder :
    (direction : Direction) (bytes_per_line size count : ℕ)
    → 0 < size
    → Exact size bytes_per_line count
    → MapsInOrder size (λ r. simple_move r direction bytes_per_line size count)
unfolding simple_move
simple_move-MapsInOrder direction bytes_per_line size count p e = record {
  follows = λ a b ha hb lt. record {
    carets = ground (arith, moved_caret_mono a.caret b.caret direction bytes_per_line size count e);
    tails = ground (arith, moved_caret_mono a.caret b.caret direction bytes_per_line size count e);
    coherent = λ h. ground arith;
  };
  within = λ a h. ground (arith, moved_caret-le a.caret direction bytes_per_line size count e);
  unmarked = λ a. ground arith;
}

simple_extend-MapsInOrder :
    (direction : Direction) (bytes_per_line size count : ℕ)
    → 0 < size
    → Exact size bytes_per_line count
    → MapsInOrder size (λ r. simple_extend r direction bytes_per_line size count)
unfolding simple_extend
simple_extend-MapsInOrder direction bytes_per_line size count p e = record {
  follows = λ a b ha hb lt. record {
    carets = ground (arith, moved_caret_mono a.caret b.caret direction bytes_per_line size count e);
    tails = ground arith;
    coherent =
        λ h. ground (arith, moved_caret_mono a.caret b.caret direction bytes_per_line size count e);
  };
  within = λ a h. ground (arith, moved_caret-le a.caret direction bytes_per_line size count e);
  unmarked = λ a. ground arith;
}

jump_to_boundary-MapsInOrder :
    (direction : Direction) (bytes_per_line size : ℕ)
    → 0 < bytes_per_line
    → 0 < size
    → size + bytes_per_line < usize_mod
    → MapsInOrder size (λ r. jump_to_boundary r direction bytes_per_line size)
unfolding jump_to_boundary
jump_to_boundary-MapsInOrder direction bytes_per_line size l p o = record {
  follows = λ a b ha hb lt. record {
    carets =
        ground (arith, boundary_caret_mono a.caret b.caret direction bytes_per_line size l p o);
    tails = ground (arith, boundary_caret_mono a.caret b.caret direction bytes_per_line size l p o);
    coherent = λ h. ground arith;
  };
  within = λ a h.
      ground (arith, boundary_caret_mono a.caret a.caret direction bytes_per_line size l p o);
  unmarked = λ a. ground arith;
}

-- Closures that leave each region where it is, or make it a part of itself.
pub swap_caret-MapsInOrder : (size : ℕ) → MapsInOrder size swap_caret
unfolding swap_caret
swap_caret-MapsInOrder size = record {
  follows = λ a b ha hb lt. record {
    carets = omega arith;
    tails = omega arith;
    coherent = λ h. absurd (omega arith);
  };
  within = λ a h. omega arith;
  unmarked = λ a. refl;
}

pub collapse-MapsInOrder : (size : ℕ) → MapsInOrder size collapse
unfolding collapse
collapse-MapsInOrder size = record {
  follows = λ a b ha hb lt. record {
    carets = omega arith;
    tails = omega arith;
    coherent = λ h. absurd (omega arith);
  };
  within = λ a h. omega arith;
  unmarked = λ a. refl;
}

pub to_backward-MapsInOrder : (size : ℕ) → MapsInOrder size to_backward
unfolding to_backward
to_backward-MapsInOrder size = record {
  follows = λ a b ha hb lt. record {
    carets = omega arith;
    tails = omega arith;
    coherent = λ h. absurd (omega arith);
  };
  within = λ a h. omega arith;
  unmarked = λ a. refl;
}

pub jump_to-MapsInOrder :
    (size offset : ℕ) → offset ≤ size → MapsInOrder size (λ r. jump_to r offset)
unfolding jump_to
jump_to-MapsInOrder size offset o = record {
  follows = λ a b ha hb lt. record {
    carets = omega arith;
    tails = omega arith;
    coherent = λ h. inl (omega arith);
  };
  within = λ a h. omega arith;
  unmarked = λ a. refl;
}

-- The closure of `Append`: the caret goes one byte past the end of the region.
pub append-MapsInOrder :
    (bytes_per_line size : ℕ)
    → 0 < size
    → Exact size bytes_per_line 1
    → MapsInOrder size (λ r. simple_extend (to_forward r) right bytes_per_line size 1)
unfolding simple_extend to_forward
append-MapsInOrder bytes_per_line size p e = record {
  follows = λ a b ha hb lt. record {
    carets =
        ground
          (arith, moved_caret_mono (Region.max a) (Region.max b) right bytes_per_line size 1 e);
    tails = ground arith;
    coherent = λ h. ground (
      arith,
      moved_caret-clamped (Region.max a) right bytes_per_line size 1 e,
      moved_caret-clamped (Region.max b) right bytes_per_line size 1 e,
    );
  };
  within = λ a h. ground (arith, moved_caret-le (Region.max a) right bytes_per_line size 1 e);
  unmarked = λ a. ground arith;
}

-- `map_selections` with `simple_move` in any direction: for a valid selection within the document,
-- where the document, the line, the count and their product are below 2 ^ 63, it returns without a
-- panic, and the new selection is valid and within the document.
pub simple_move-Returns :
    (direction : Direction) (bytes_per_line size count : ℕ) (s : Selection)
    → Exact size bytes_per_line count
    → Valid s
    → InDocument size s
    → Returns size s (λ r. simple_move r direction bytes_per_line size count ∷ [])
unfolding simple_move
simple_move-Returns direction bytes_per_line zero count s e v d =
    map_selections-empty s.regions s.main_selection
      (λ r. simple_move r direction bytes_per_line 0 count) (λ r. refl) v d
simple_move-Returns direction bytes_per_line (suc n) count s e v d =
    map_selections-MapsInOrder
      (simple_move-MapsInOrder direction bytes_per_line (suc n) count (omega arith) e) s v d

-- `map_selections` with `simple_extend` in any direction: for a valid selection within the document,
-- where the document, the line, the count and their product are below 2 ^ 63, it returns without a
-- panic, and the new selection is valid and within the document.
pub simple_extend-Returns :
    (direction : Direction) (bytes_per_line size count : ℕ) (s : Selection)
    → Exact size bytes_per_line count
    → Valid s
    → InDocument size s
    → Returns size s (λ r. simple_extend r direction bytes_per_line size count ∷ [])
unfolding simple_extend
simple_extend-Returns direction bytes_per_line zero count s e v d =
    map_selections-empty s.regions s.main_selection
      (λ r. simple_extend r direction bytes_per_line 0 count) (λ r. refl) v d
simple_extend-Returns direction bytes_per_line (suc n) count s e v d =
    map_selections-MapsInOrder
      (simple_extend-MapsInOrder direction bytes_per_line (suc n) count (omega arith) e) s v d

pub append-Returns :
    (bytes_per_line size : ℕ) (s : Selection)
    → Exact size bytes_per_line 1
    → Valid s
    → InDocument size s
    → Returns size s (λ r. simple_extend (to_forward r) right bytes_per_line size 1 ∷ [])
unfolding simple_extend to_forward
append-Returns bytes_per_line zero s e v d =
    map_selections-MapsInOrder
      (record {
        follows = λ a b ha hb lt. absurd (omega arith);
        within = λ a h. ground arith;
        unmarked = λ a. ground arith;
      })
      s v d
append-Returns bytes_per_line (suc n) s e v d =
    map_selections-MapsInOrder (append-MapsInOrder bytes_per_line (suc n) (omega arith) e) s v d

-- `map_selections` with `jump_to_boundary` in any direction: for a valid selection within the
-- document, where a line has at least one byte and the length of the document plus that of a line
-- fits `usize`, it returns without a panic, and the new selection is valid and within the document.
pub jump_to_boundary-Returns :
    (direction : Direction) (bytes_per_line size : ℕ) (s : Selection)
    → 0 < bytes_per_line
    → size + bytes_per_line < usize_mod
    → Valid s
    → InDocument size s
    → Returns size s (λ r. jump_to_boundary r direction bytes_per_line size ∷ [])
unfolding jump_to_boundary
jump_to_boundary-Returns direction bytes_per_line zero s l o v d =
    map_selections-empty s.regions s.main_selection
      (λ r. jump_to_boundary r direction bytes_per_line 0) (λ r. refl) v d
jump_to_boundary-Returns direction bytes_per_line (suc n) s l o v d =
    map_selections-MapsInOrder
      (jump_to_boundary-MapsInOrder direction bytes_per_line (suc n) l (omega arith) o) s v d

-- `map_selections` with `extend_to` panics where the offset lies between the tails of the first two
-- regions, whatever the rest of the selection is.
pub extend_to-panics :
    (a b : SelRegion) (rest : List SelRegion) (main offset : ℕ)
    → a.tail < offset
    → offset < b.tail
    → map_selections
        (record { regions = a ∷ b ∷ rest; main_selection = main })
        (λ r. extend_to r offset ∷ [])
      ≡ none
unfolding map_selections map_loop note_main push_regions push_region extend_to merge
extend_to-panics a b rest zero offset h k = ground arith
extend_to-panics a b rest (suc n) offset h k = ground arith
