-- ===== src/Modes/Insert/Open.antt =====
-- What a key press in insert mode makes of the insertion so far.
use teehee.Common.{
  ℕ, ◌≡◌, refl, ap, ◌∙◌, Bool, true, false, Option, none, some, List, if◌then◌else◌, ◌>>=◌, length,
  map, pos, negsuc,
}
use teehee.Region.{SelRegion}
use teehee.Rope.{XiRope}
use teehee.Selection
use teehee.Selection.{Selection}
use teehee.Dirty.{DirtyBytes, change_in_place, disjoint, sort_by_start, invalidated}
use teehee.Operations.Fits.{Fits}
use teehee.Buffer
use teehee.Buffer.{Buffer}
use teehee.Buffer.Undo.{Applied, incomplete, incomplete_offset}
use teehee.Buffer.Insertion.{Insertion, first, more, between}
use teehee.Buffer.Sessions.{SameEdits}
use teehee.Modes.{
  Mode, InsertionMode, ModeTransition, no_change, new_mode, dirty_bytes, mode_and_dirty_bytes,
  Outcome, dirty, mode_and_dirty,
}
use teehee.Modes.Insert

abbrev pub StaysInsert : Option ModeTransition → Type 0
StaysInsert none = Unit
StaysInsert (some no_change) = Unit
StaysInsert (some (dirty_bytes d)) = Unit
StaysInsert (some (new_mode (Mode.insert mode hex half))) = Unit
StaysInsert (some (mode_and_dirty_bytes (Mode.insert mode hex half) d)) = Unit
StaysInsert (some t) = ⊥

-- Nothing is edited yet, or the edits so far are the steps of one insertion.
pub data Open {X : XiRope} (b c : Buffer X) : Type 0 where
  untouched : c.history.partial ≡ none → SameEdits c b → Open b c
  touched : (e : Buffer X) → SameEdits e b → Insertion e c → Open b c

pub both {ℓ} :
    {A : Type ℓ} (P : A → Type 0) (test : Bool) {x y : A} → P x → P y → P (if test then x else y)
both P true p q = p
both P false p q = q

module _ {X : XiRope} where
  Open-same :
      (b c d : Buffer X) → d.contents ≡ c.contents → d.history ≡ c.history → Open b c → Open b d
  Open-same b c d text same (untouched clear (p, q)) =
      untouched (rw same clear) (text ∙ p, ap (λ h. h.undos) same ∙ q)
  Open-same b c d text same (touched e before steps) =
      touched e before (between c d steps text same)

  Open-step :
      (b c d : Buffer X) (delta : X.Delta)
      → X.base_len delta ≡ length c.contents
      → Applied c delta false d
      → Open b c
      → Open b d
  Open-step b c d delta fits step (untouched clear same) =
      touched c same (first d delta clear fits step)
  Open-step b c d delta fits step (touched e before steps) =
      touched e before (more c d delta steps fits step)

  -- Whatever buffer is returned.
  abbrev pub OpenAll : Buffer X → Option (Buffer X × DirtyBytes) → Type 0
  OpenAll b none = Unit
  OpenAll b (some (d, dirty)) = Open b d

  pub incomplete-OpenAll :
      (b c : Buffer X) (delta : Option X.Delta)
      → Open b c
      → Fits X c.contents delta
      → OpenAll b (Insert.incomplete X c delta)
  unfolding Insert.incomplete
  incomplete-OpenAll b c none o fits = tt
  incomplete-OpenAll b c (some delta) o fits = returned _ refl
    where
      returned :
          (r : Option (Buffer X × DirtyBytes))
          → Buffer.apply_incomplete_delta X c delta ≡ r
          → OpenAll b r
      returned none e = tt
      returned (some (d, changed)) e =
          Open-step b c d delta (fits delta refl) (incomplete d changed e) o

  pub incomplete_back-OpenAll :
      (b c : Buffer X) (delta : Option X.Delta)
      → Open b c
      → Fits X c.contents delta
      → OpenAll b (Insert.incomplete_back X c delta)
  unfolding Insert.incomplete_back
  incomplete_back-OpenAll b c none o fits = tt
  incomplete_back-OpenAll b c (some delta) o fits = returned _ refl
    where
      returned :
          (r : Option (Buffer X × DirtyBytes))
          → Buffer.apply_incomplete_delta_offset_carets X c delta (negsuc 0) (pos 0) ≡ r
          → OpenAll b r
      returned none e = tt
      returned (some (d, changed)) e =
          Open-step b c d delta (fits delta refl) (incomplete_offset d changed _ _ e) o

  pub map_selections-OpenAll :
      (b c : Buffer X) (f : SelRegion → List SelRegion)
      → Open b c
      → OpenAll b (Buffer.map_selections X c f)
  unfolding Buffer.map_selections Buffer.map_selections_to
  map_selections-OpenAll b c f o =
      returned (Selection.map_selections_to c.selection (map f c.selection.regions))
    where
      returned :
          (s : Option Selection)
          → OpenAll b (
              s >>= λ selection. some (
                record c { selection = selection },
                change_in_place (
                    disjoint (
                      sort_by_start (invalidated c.selection.regions (map f c.selection.regions)))),
              ))
      returned none = tt
      returned (some s) = Open-same b c _ refl refl o

  abbrev pub OutcomeOpen : Buffer X → Outcome X → Type 0
  OutcomeOpen b none = Unit
  OutcomeOpen b (some (d, t)) = Open b d × StaysInsert t

  pub dirty-Open :
      (b : Buffer X) (r : Option (Buffer X × DirtyBytes)) → OpenAll b r → OutcomeOpen b (dirty r)
  dirty-Open b none o = tt
  dirty-Open b (some (d, changed)) o = (o, tt)

  pub mode_and_dirty-Open :
      (b : Buffer X) (mode : InsertionMode) (hex : Bool) (half : Option ℕ)
      (r : Option (Buffer X × DirtyBytes))
      → OpenAll b r
      → OutcomeOpen b (mode_and_dirty (Mode.insert mode hex half) r)
  mode_and_dirty-Open b mode hex half none o = tt
  mode_and_dirty-Open b mode hex half (some (d, changed)) o = (o, tt)

  abbrev pub BufferOpen : Buffer X → Option (Buffer X) → Type 0
  BufferOpen b none = Unit
  BufferOpen b (some d) = Open b d

  pub BufferOpen-of :
      (b : Buffer X) (r : Outcome X) → OutcomeOpen b r → BufferOpen b (r >>= λ (d, t). some d)
  BufferOpen-of b none p = tt
  BufferOpen-of b (some (d, t)) p = p.0

  pub moved-Open :
      (b : Buffer X) (mode : InsertionMode) (hex : Bool) (f : Buffer X → SelRegion → List SelRegion)
      (r : Option (Buffer X))
      → BufferOpen b r
      → OutcomeOpen b
          (r >>= λ d. mode_and_dirty (Mode.insert mode hex none) (Buffer.map_selections X d (f d)))
  moved-Open b mode hex f none o = tt
  moved-Open b mode hex f (some d) o =
      mode_and_dirty-Open b mode hex none _ (map_selections-OpenAll b d (f d) o)
