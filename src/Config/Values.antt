-- ===== src/Config/Values.antt =====
-- src/config/config_parser.cpp: the values of settings.
use mathlib.Core.List.{reverse}
use lddm.Base.{
  ℕ, ◌+◌, ◌%◌, ◌^◌, Bool, true, false, not, ◌&&◌, ◌||◌, List, [], ◌∷◌, ◌++◌, none, some, ◌==◌, leb,
  length, if◌then◌else◌,
}
use lddm.Text.{Text, same_text, no_bytes, trim}
use lddm.Text.Numbers.{stoul}
use lddm.Config.Lines.{first, section_name}
use lddm.Logging.Level.{reads}

-- '"' and '\''
abbrev pub is_quote : ℕ → Bool
is_quote c = c == 34 || c == 39

unfoldable pub strip_quotes : Text → Text
unfolding section_name
strip_quotes t =
    if leb 2 (length t) && (is_quote (first t) && first t == first (reverse t))
    then section_name t
    else t

-- std::tolower of a byte.
abbrev pub lower_byte : ℕ → ℕ
lower_byte c = if leb 65 c && leb c 90 then c + 32 else c

unfoldable pub lower : Text → Text
lower [] = []
lower (c ∷ cs) = lower_byte c ∷ lower cs

unfoldable pub parse_bool : Text → Bool → Bool
unfolding lower trim same_text
parse_bool t default =
    let s : Text = lower (trim t) in
    if reads s "true" || reads s "1" || reads s "yes" || reads s "on"
    then true
    else if reads s "false" || reads s "0" || reads s "no" || reads s "off"
    then false
    else default

unfoldable pub parse_uint32 : Text → ℕ → ℕ
unfolding stoul trim
parse_uint32 t default =
    let s : Text = trim t in
    if no_bytes s then default else elim (stoul s) [ none ↦ default | some n ↦ n % 2 ^ 32 ]

-- What is pushed for a finished item: nothing for a blank one.
unfoldable pub item_of : Text → List Text
unfolding trim strip_quotes
item_of current = if no_bytes (trim current) then [] else strip_quotes (trim current) ∷ []

-- The loop of parse_string_list: `quote` is 0 outside of quotes, and `current` is the item so far.
unfoldable pub read_items : ℕ → Text → Text → List Text
unfolding item_of
read_items quote current [] = item_of current
read_items quote current (c ∷ cs) =
    let opened = read_items c current cs in
    let closed = read_items 0 current cs in
    let ended = read_items 0 [] cs in
    let pushed = read_items quote (current ++ c ∷ []) cs in
    if quote == 0 && is_quote c
    then opened
    else if not (quote == 0) && c == quote
    then closed
    else if quote == 0 && (c == 44 || c == 32)
    then item_of current ++ ended
    else pushed

unfoldable pub parse_string_list : Text → List Text
unfolding read_items
parse_string_list t = read_items 0 [] t
