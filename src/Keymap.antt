-- ===== src/Keymap.antt =====
-- src/keymap.rs: key events, and the tables from keys to actions. `KeyCode`, `KeyModifiers` and
-- `Event` are those of the crossterm crate as far as the source names them.
use teehee.Common.{
  ℕ, Bool, true, false, ◌&&◌, Option, none, some, List, [], ◌∷◌, ◌==◌, if◌then◌else◌,
}

-- `char` holds a code point, and `other` a key that the source never names.
pub data KeyCode : Type 0 where
  char : ℕ → KeyCode
  esc backspace enter left right up down delete : KeyCode
  other : ℕ → KeyCode

pub record KeyModifiers : Type 0 where
  pub shift : Bool
  pub control : Bool
  pub alt : Bool

pub record KeyEvent : Type 0 where
  pub code : KeyCode
  pub modifiers : KeyModifiers

pub data Event : Type 0 where
  key : KeyEvent → Event
  resize : ℕ → ℕ → Event
  mouse : Event

abbrev same_bool : Bool → Bool → Bool
same_bool true b = b
same_bool false true = false
same_bool false false = true

abbrev same_code : KeyCode → KeyCode → Bool
same_code (KeyCode.char a) (KeyCode.char b) = a == b
same_code KeyCode.esc KeyCode.esc = true
same_code KeyCode.backspace KeyCode.backspace = true
same_code KeyCode.enter KeyCode.enter = true
same_code KeyCode.left KeyCode.left = true
same_code KeyCode.right KeyCode.right = true
same_code KeyCode.up KeyCode.up = true
same_code KeyCode.down KeyCode.down = true
same_code KeyCode.delete KeyCode.delete = true
same_code (KeyCode.other a) (KeyCode.other b) = a == b
same_code _ _ = false

abbrev pub same_key : KeyEvent → KeyEvent → Bool
same_key a b =
    same_code a.code b.code
    && same_bool a.modifiers.shift b.modifiers.shift
    && same_bool a.modifiers.control b.modifiers.control
    && same_bool a.modifiers.alt b.modifiers.alt

abbrev pub no_modifiers : KeyModifiers
no_modifiers = record { shift = false; control = false; alt = false }

-- The four forms of an entry of the macro `keys!`.
abbrev pub plain : ℕ → KeyEvent
plain c = record { code = KeyCode.char c; modifiers = no_modifiers }

abbrev pub alt : ℕ → KeyEvent
alt c = record { code = KeyCode.char c; modifiers = record no_modifiers { alt = true } }

abbrev pub ctrl : ℕ → KeyEvent
ctrl c = record { code = KeyCode.char c; modifiers = record no_modifiers { control = true } }

abbrev pub special : KeyCode → KeyEvent
special code = record { code = code; modifiers = no_modifiers }

-- `HashMap<KeyEvent, T>`, as the list of its entries, the last inserted one of a key first.
pub record KeyMap {ℓ} (T : Type ℓ) : Type ℓ where
  pub maps : List (KeyEvent × T)

module _ {ℓ} {T : Type ℓ} where
  insert_all : List (KeyEvent × T) → List (KeyEvent × T) → List (KeyEvent × T)
  insert_all map [] = map
  insert_all map (entry ∷ rest) = insert_all (entry ∷ map) rest

  unfoldable pub keys : List (KeyEvent × T) → KeyMap T
  unfolding insert_all
  keys entries = record { maps = insert_all [] entries }

  get : KeyEvent → List (KeyEvent × T) → Option T
  get k [] = none
  get k ((k', action) ∷ map) = if same_key k' k then some action else get k map

  unfoldable pub event_to_action : KeyMap T → Event → Option T
  unfolding get
  event_to_action m (Event.key evt) =
      get (record { code = evt.code; modifiers = record (evt.modifiers) { shift = false } }) m.maps
  event_to_action m (Event.resize x y) = none
  event_to_action m Event.mouse = none

-- The modifiers other than shift, as `*modifiers & !KeyModifiers::SHIFT` tests them.
abbrev pub beyond_shift : KeyModifiers → Bool
beyond_shift m = if m.control then true else m.alt

abbrev pub press : KeyEvent → Event
press = Event.key
