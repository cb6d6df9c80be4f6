-- ===== src/HexView/Style.antt =====
-- src/hex_view/mod.rs: the styles of bytes, and what is queued for the terminal to print them.
use teehee.Common.{
  ℕ, zero, suc, ◌/◌, ◌%◌, Bool, ◌&&◌, ◌||◌, Option, none, some, List, [], ◌∷◌, ◌++◌, ltb, leb, ◌==◌,
  if◌then◌else◌,
}
use teehee.Modes.Pattern.{lower_hex}

-- The colours of crossterm that the program names.
pub data Color : Type 0 where
  reset black dark_grey red dark_red green yellow dark_yellow blue dark_magenta cyan white : Color
  rgb : (r g b : ℕ) → Color
  ansi_value : ℕ → Color

-- Without the attributes, which the program leaves empty.
pub record ContentStyle : Type 0 where
  pub foreground_color : Option Color
  pub background_color : Option Color

pub data Priority : Type 0 where
  basic mark selection cursor : Priority

pub record PrioritizedStyle : Type 0 where
  pub style : ContentStyle
  pub priority : Priority

pub record StylingCommand : Type 0 where
  pub start : Option PrioritizedStyle
  pub mid : Option PrioritizedStyle
  pub end : Option PrioritizedStyle

abbrev pub style_of : Option PrioritizedStyle → Option ContentStyle
style_of none = none
style_of (some p) = some p.style

abbrev pub start_style : StylingCommand → Option ContentStyle
start_style c = style_of c.start

abbrev pub mid_style : StylingCommand → Option ContentStyle
mid_style c = style_of c.mid

abbrev pub end_style : StylingCommand → Option ContentStyle
end_style c = style_of c.end

-- `StylingCommand::default`
abbrev pub unstyled : StylingCommand
unstyled = record { start = none; mid = none; end = none }

abbrev pub with_start_style : StylingCommand → PrioritizedStyle → StylingCommand
with_start_style c style = record c { start = some style }

abbrev pub with_mid_to_end : StylingCommand → StylingCommand
with_mid_to_end c = record { start = c.start; mid = none; end = c.mid }

abbrev pub take_end_only : StylingCommand → StylingCommand
take_end_only c = record { start = none; mid = none; end = c.end }

abbrev pub with_mid_style : StylingCommand → PrioritizedStyle → StylingCommand
with_mid_style c style = record c { mid = some style }

abbrev pub with_end_style : StylingCommand → PrioritizedStyle → StylingCommand
with_end_style c style = record c { end = some style }

-- What is queued for the terminal; a text is its characters.
pub data Queued : Type 0 where
  set_foreground_color set_background_color : Color → Queued
  print : List ℕ → Queued
  print_styled_content : ContentStyle → List ℕ → Queued
  move_to : (x y : ℕ) → Queued
  clear_all clear_current_line clear_until_new_line : Queued
  scroll_up scroll_down : ℕ → Queued

abbrev set_color : (Color → Queued) → Option Color → List Queued
set_color set none = []
set_color set (some c) = set c ∷ []

unfoldable pub queue_style : ContentStyle → List Queued
queue_style style =
    set_color set_foreground_color style.foreground_color
    ++ set_color set_background_color style.background_color

abbrev pub queue_optional : Option ContentStyle → List Queued
queue_optional none = []
queue_optional (some style) = queue_style style

-- `u8::is_ascii_graphic`
abbrev pub is_ascii_graphic : ℕ → Bool
is_ascii_graphic byte = leb 0x21 byte && leb byte 0x7E

-- `u8::is_ascii_whitespace`
abbrev is_ascii_whitespace : ℕ → Bool
is_ascii_whitespace byte =
    (byte == 0x20) || ((byte == 9) || ((byte == 10) || ((byte == 12) || (byte == 13))))

unfoldable pub get_byte_color : ℕ → Color
get_byte_color byte =
    if byte == 0
    then ansi_value 150
    else (if is_ascii_graphic byte
        then Color.cyan
        else (if is_ascii_whitespace byte
            then Color.green
            else (if ltb byte 0x80 then rgb 232 52 210 else Color.yellow)))

abbrev background : Option ContentStyle → Option Color
background none = none
background (some style) = style.background_color

unfoldable pub colorize_byte : ℕ → StylingCommand → StylingCommand
colorize_byte byte style_cmd = with_start_style style_cmd (record {
  style = record {
    foreground_color = some (get_byte_color byte);
    background_color = background (start_style style_cmd);
  };
  priority = basic;
})

abbrev pub spaces : ℕ → List ℕ
spaces zero = []
spaces (suc n) = 0x20 ∷ spaces n

-- A slice of a text of 64 spaces.
unfoldable pub make_padding : ℕ → Option (List ℕ)
make_padding len = if leb len 64 then some (spaces len) else none

-- `Display` of `ByteAsciiRepr`
abbrev byte_ascii_repr : ℕ → ℕ
byte_ascii_repr byte = if is_ascii_graphic byte || (byte == 0x20) then byte else b'.'

unfoldable pub draw_hex_byte : ℕ → StylingCommand → List Queued
draw_hex_byte byte style =
    let style_cmd = colorize_byte byte style in
    queue_optional (start_style style_cmd)
    ++ (print (lower_hex (byte / 16) ∷ [])
        ∷ (queue_optional (mid_style style_cmd)
            ++ (print (lower_hex (byte % 16) ∷ [])
                ∷ (queue_optional (end_style style_cmd) ++ (print (0x20 ∷ []) ∷ [])))))

unfoldable pub draw_ascii_byte : ℕ → StylingCommand → List Queued
draw_ascii_byte byte style =
    let style_cmd = colorize_byte byte style in
    queue_optional (start_style style_cmd)
    ++ (print (byte_ascii_repr byte ∷ []) ∷ queue_optional (end_style style_cmd))

-- `OutputColorizer::draw` of a text.
unfoldable pub draw : List ℕ → StylingCommand → List Queued
draw c style = queue_optional (start_style style) ++ (print c ∷ queue_optional (end_style style))
