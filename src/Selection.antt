-- ===== src/Selection.antt =====
-- src/selection.rs: `Selection`, the selected regions of a buffer. A method that mutates `self`
-- returns the new selection; `none` is a panic (an index out of range, a failed merge).
pub mod Valid
pub mod Push
pub mod Kept
pub mod Loop
pub mod Single
pub mod Inside
pub mod Moves
pub mod Main
pub mod Range
pub mod Remove
pub mod Shift
use Prim.Native.Nat.{min as cmp_min}
use teehee.Common.{
  ℕ, zero, suc, ◌+◌, ◌-◌, ◌%◌, ◌≤◌, ◌<◌, Bool, true, false, ◌&&◌, Option, none, some, List, [], ◌∷◌,
  map, ltb, leb, ◌==◌, if◌then◌else◌, ◌>>=◌, length, get_elem?, modify, erase_idx, take, drop,
  wrapping_add, usize_mod, ℤ, pos, as_isize, as_usize, ◌+ℤ◌, wrap_isize,
}
use teehee.Region
use teehee.Region.{SelRegion, new, with_main, overlaps, merge}

pub record Selection : Type 0 where
  pub regions : List SelRegion
  pub main_selection : ℕ

-- `Selection::new` and `Default::default`
abbrev pub default : Selection
default = record { regions = with_main true (new 0 0) ∷ []; main_selection = 0 }

abbrev pub clear : Selection → Selection
clear s = record { regions = with_main true (new 0 0) ∷ []; main_selection = 0 }

sum_len : List SelRegion → ℕ
sum_len [] = 0
sum_len (r ∷ rs) = wrapping_add (Region.len r) (sum_len rs)

unfoldable pub len_bytes : Selection → ℕ
unfolding sum_len
len_bytes s = sum_len s.regions

unfoldable pub retain : Selection → ℕ → Option Selection
retain s index = get_elem? s.regions index >>= λ main.
    some (record { regions = with_main true main ∷ []; main_selection = 0 })

-- What `remove` does with more than one region, `index` being in range.
unfoldable pub remove_region : Selection → ℕ → Selection
remove_region s index =
    let regions = erase_idx s.regions index in
    let main_selection = cmp_min (length regions - 1) s.main_selection in
    record {
      regions = modify regions main_selection (with_main true);
      main_selection = main_selection;
    }

unfoldable pub remove : Selection → ℕ → Option Selection
unfolding remove_region
remove s index =
    if length s.regions == 1
    then some s
    else (if ltb index (length s.regions) then some (remove_region s index) else none)

unfoldable pub select_all : Selection → ℕ → Selection
select_all s buf_size =
    if buf_size == 0
    then clear s
    else record { regions = with_main true (new (buf_size - 1) 0) ∷ []; main_selection = 0 }

unfoldable pub main : Selection → Option SelRegion
main s = get_elem? s.regions s.main_selection

unfoldable pub main_cursor_offset : Selection → Option ℕ
unfolding main
main_cursor_offset s = main s >>= λ r. some r.caret

-- `binary_search_by` on the ends of the regions, which are in order: where a region ends at
-- `offset`, its index, and the index of the first region that ends behind it if none does.
unfoldable pub search_from : List SelRegion → ℕ → ℕ
search_from [] offset = 0
search_from (r ∷ rs) offset =
    let rest = search_from rs offset in if ltb (Region.max r) offset then suc rest else 0

unfoldable pub last : SelRegion → List SelRegion → SelRegion
last r [] = r
last r (r' ∷ rs) = last r' rs

unfoldable pub search : Selection → ℕ → Option ℕ
unfolding last
search s offset = elim s.regions [
  | [] ↦ none
  | r ∷ rs ↦ some (
      if ltb (Region.max (last r rs)) offset
      then length s.regions
      else search_from s.regions offset)
]

-- `self.regions[last].min() <= end`, where `last` is in range.
unfoldable pub reaches : List SelRegion → ℕ → ℕ → Bool
reaches regions last end = elim (get_elem? regions last) [
  | none ↦ false
  | some r ↦ leb (Region.min r) end
]

-- The slice `[first..last]` panics where `first` is behind `last`.
unfoldable pub regions_in_range : Selection → ℕ → ℕ → Option (List SelRegion)
regions_in_range s start end = search s start >>= λ first. search s end >>= λ found.
    let last = if reaches s.regions found end then suc found else found in
    if leb first last then some (take (last - first) (drop first s.regions)) else none

-- The loop of `map_selections`. `regions_out` is kept with its last region first.

-- A new region is pushed, or merged with the last.
unfoldable pub push_region : List SelRegion → SelRegion → Option (List SelRegion)
push_region [] new_region = some (new_region ∷ [])
push_region (last ∷ out) new_region =
    if overlaps last new_region
    then (merge last new_region >>= λ merged. some (merged ∷ out))
    else some (new_region ∷ last ∷ out)

unfoldable pub push_regions : List SelRegion → List SelRegion → Option (List SelRegion)
push_regions out [] = some out
push_regions out (r ∷ rs) = push_region out r >>= λ out'. push_regions out' rs

-- At the main selection, the last region so far becomes the main one.
unfoldable pub note_main : Bool → List SelRegion → ℕ → Option (List SelRegion × ℕ)
note_main false out new_main_sel = some (out, new_main_sel)
note_main true [] new_main_sel = none
note_main true (last ∷ out) new_main_sel = some (with_main true last ∷ out, length out)

-- One round for each region: `i` is its index, and the list what the closure makes of it.
unfoldable pub map_loop :
    ℕ → ℕ → List SelRegion → ℕ → List (List SelRegion) → Option (List SelRegion × ℕ)
map_loop main i out new_main_sel [] = some (out, new_main_sel)
map_loop main i out new_main_sel (new_regions ∷ rest) = push_regions out new_regions >>= λ out'.
    note_main (i == main) out' new_main_sel >>= λ (out'', new_main_sel').
    map_loop main (suc i) out'' new_main_sel' rest

abbrev pub in_order : List SelRegion → List SelRegion → List SelRegion
in_order [] acc = acc
in_order (r ∷ out) acc = in_order out (r ∷ acc)

-- `map_selections` for a closure with a state: what it returns for each region, in turn.
unfoldable pub map_selections_to : Selection → List (List SelRegion) → Option Selection
map_selections_to s results = map_loop s.main_selection 0 [] 0 results >>= λ (out, new_main_sel).
    some (record { regions = in_order out []; main_selection = new_main_sel })

unfoldable pub map_selections : Selection → (SelRegion → List SelRegion) → Option Selection
unfolding map_selections_to
map_selections s f = map_selections_to s (map f s.regions)

unfoldable pub select_next : Selection → ℕ → Option Selection
select_next s count = get_elem? s.regions s.main_selection >>= λ _.
    let main_selection = wrapping_add s.main_selection count % length s.regions in
    some (record {
      regions =
          modify (modify s.regions s.main_selection (with_main false)) main_selection
            (with_main true);
      main_selection = main_selection;
    })

unfoldable pub select_prev : Selection → ℕ → Option Selection
select_prev s count = get_elem? s.regions s.main_selection >>= λ _.
    let main_selection =
      (wrapping_add s.main_selection (length s.regions) - count % length s.regions)
      % length s.regions in
    some (record {
      regions =
          modify (modify s.regions s.main_selection (with_main false)) main_selection
            (with_main true);
      main_selection = main_selection;
    })
