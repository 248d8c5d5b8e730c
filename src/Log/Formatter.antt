-- ===== src/Log/Formatter.antt =====
-- `LogFormatter` and its items: src/log/log_formatter.h and src/log/log_formatter.cc. The time, as
-- `strftime` prints it, is an argument.
pub mod Rendered
use restful_cweb.Prelude.{
  ℕ, Bool, List, [], ◌∷◌, ◌++◌, Bytes, codes, ◌==◌, if◌then◌else◌, Option, none, some,
}

pub data LogLevel : Type 0 where
  debug info warn error fatal off : LogLevel

-- `LogInfo`, with the thread's number as it is printed.
pub record LogInfo : Type 0 where
  pub log_level : LogLevel
  pub thread_id : Bytes
  pub log_module : Bytes
  pub log_tag : Bytes
  pub log_content : Bytes

pub data LogFormatItem : Type 0 where
  string_item : Bytes → LogFormatItem
  new_line_item data_item level_item thread_id_item coroutine_id_item module_item tag_item
        content_item :
      LogFormatItem

abbrev pub level_name : LogLevel → Bytes
level_name debug = codes "DEBUG"
level_name warn = codes "WARN"
level_name info = codes "INFO"
level_name error = codes "ERROR"
level_name fatal = codes "FATAL"
level_name off = codes "UNKNOW"

-- `Format` of the items.
unfoldable pub format_item : Bytes → LogInfo → LogFormatItem → Bytes
format_item now i (string_item s) = s
format_item now i new_line_item = codes "\r\n"
format_item now i data_item = now
format_item now i level_item = level_name i.log_level
format_item now i thread_id_item = i.thread_id
format_item now i coroutine_id_item = []
format_item now i module_item = i.log_module
format_item now i tag_item = i.log_tag
format_item now i content_item = i.log_content

-- `GetFormatItem` for a type of one letter; `none` is the null pointer.
unfoldable pub get_format_item : ℕ → Bytes → Option LogFormatItem
get_format_item type str =
    if type == b's'
    then some (string_item str)
    else if type == b'd'
    then some data_item
    else if type == b'n'
    then some new_line_item
    else if type == b'l'
    then some level_item
    else if type == b'T'
    then some thread_id_item
    else if type == b'C'
    then some coroutine_id_item
    else if type == b'm'
    then some module_item
    else if type == b't'
    then some tag_item
    else if type == b'c'
    then some content_item
    else none

-- The first loop of `parseLogpattern`, with the text from `start` on: the types and texts.
unfoldable pub item_infos : Bytes → Bytes → List (ℕ × Bytes)
item_infos text [] = []
item_infos text (c ∷ []) = if c == b'%' then (b's', text) ∷ [] else []
item_infos text (c ∷ d ∷ s) =
    let same = item_infos (text ++ c ∷ []) (d ∷ s) in
    let next = item_infos [] s in
    if c == b'%' then (if d == b'%' then same else (b's', text) ∷ (d, []) ∷ next) else same

abbrev pub add_item :
    Option LogFormatItem → Option (List LogFormatItem) → Option (List LogFormatItem)
add_item none items = none
add_item (some i) none = none
add_item (some i) (some items) = some (i ∷ items)

-- The second loop; `none` is the failed assertion.
unfoldable pub make_items : List (ℕ × Bytes) → Option (List LogFormatItem)
unfolding get_format_item
make_items [] = some []
make_items ((type, str) ∷ infos) = add_item (get_format_item type str) (make_items infos)

unfoldable pub parse_logpattern : Bytes → Option (List LogFormatItem)
unfolding item_infos make_items
parse_logpattern pattern = make_items (item_infos [] pattern)

-- `Format`.
unfoldable pub format : Bytes → LogInfo → List LogFormatItem → Bytes
unfolding format_item
format now i [] = []
format now i (item ∷ items) = format_item now i item ++ format now i items
