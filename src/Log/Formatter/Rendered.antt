-- ===== src/Log/Formatter/Rendered.antt =====
-- What a pattern gives.
use restful_cweb.Prelude.{
  ℕ, ◌≡◌, refl, sym, ap, ◌∙◌, ◌≢◌, false, List, [], ◌∷◌, ◌++◌, append_assoc, append-nil, Bytes,
  codes, ◌==◌, if◌then◌else◌, some, arith,
}
use restful_cweb.Log.Formatter.{
  LogInfo, LogFormatItem, string_item, new_line_item, data_item, level_item, thread_id_item,
  coroutine_id_item, module_item, tag_item, content_item, format_item, get_format_item, item_infos,
  add_item, make_items, parse_logpattern, format, level_name,
}

-- The fields that a pattern can name, and their letters.
pub data Field : Type 0 where
  date newline level thread coroutine module_name tag content : Field

abbrev pub letter : Field → ℕ
letter date = b'd'
letter newline = b'n'
letter level = b'l'
letter thread = b'T'
letter coroutine = b'C'
letter module_name = b'm'
letter tag = b't'
letter content = b'c'

abbrev pub shown : Bytes → LogInfo → Field → Bytes
shown now i date = now
shown now i newline = codes "\r\n"
shown now i level = level_name i.log_level
shown now i thread = i.thread_id
shown now i coroutine = []
shown now i module_name = i.log_module
shown now i tag = i.log_tag
shown now i content = i.log_content

-- Text with no percent sign.
abbrev pub IsPlain : Bytes → Type 0
IsPlain [] = Unit {0}
IsPlain (c ∷ s) = (c ≢ b'%') × IsPlain s

abbrev pub Pieces : Type 0
Pieces = List (Bytes × Field)

abbrev pub ArePlain : Pieces → Type 0
ArePlain [] = Unit {0}
ArePlain ((text, f) ∷ ps) = IsPlain text × ArePlain ps

abbrev pub pattern : Pieces → Bytes → Bytes
pattern [] rest = rest
pattern ((text, f) ∷ ps) rest = text ++ b'%' ∷ letter f ∷ pattern ps rest

unfoldable pub rendered : Bytes → LogInfo → Pieces → Bytes
rendered now i [] = []
rendered now i ((text, f) ∷ ps) = text ++ (shown now i f ++ rendered now i ps)

abbrev item_of : Field → LogFormatItem
item_of date = data_item
item_of newline = new_line_item
item_of level = level_item
item_of thread = thread_id_item
item_of coroutine = coroutine_id_item
item_of module_name = module_item
item_of tag = tag_item
item_of content = content_item

get_format_item-letter : (f : Field) → get_format_item (letter f) [] ≡ some (item_of f)
unfolding get_format_item
get_format_item-letter date = refl
get_format_item-letter newline = refl
get_format_item-letter level = refl
get_format_item-letter thread = refl
get_format_item-letter coroutine = refl
get_format_item-letter module_name = refl
get_format_item-letter tag = refl
get_format_item-letter content = refl

format_item-item_of :
    (now : Bytes) (i : LogInfo) (f : Field) → format_item now i (item_of f) ≡ shown now i f
unfolding format_item
format_item-item_of now i date = refl
format_item-item_of now i newline = refl
format_item-item_of now i level = refl
format_item-item_of now i thread = refl
format_item-item_of now i coroutine = refl
format_item-item_of now i module_name = refl
format_item-item_of now i tag = refl
format_item-item_of now i content = refl

letter-other : (f : Field) → letter f == b'%' ≡ false
letter-other date = refl
letter-other newline = refl
letter-other level = refl
letter-other thread = refl
letter-other coroutine = refl
letter-other module_name = refl
letter-other tag = refl
letter-other content = refl

item_infos-letter :
    (text rest : Bytes) (f : Field)
    → item_infos text (b'%' ∷ letter f ∷ rest) ≡ (b's', text) ∷ (letter f, []) ∷ item_infos [] rest
unfolding item_infos
item_infos-letter text rest f =
    ap
      (λ b.
        if b
        then item_infos (text ++ b'%' ∷ []) (letter f ∷ rest)
        else (b's', text) ∷ (letter f, []) ∷ item_infos [] rest)
      (letter-other f)

not_percent : (d : ℕ) → d ≢ b'%' → (d == b'%') ≡ false
not_percent d ne = ground arith

-- Plain text before another byte is kept.
item_infos-text :
    (before text rest : Bytes) (c : ℕ)
    → IsPlain text
    → item_infos before (text ++ c ∷ rest) ≡ item_infos (before ++ text) (c ∷ rest)
unfolding item_infos
item_infos-text before [] rest c p = ap (λ t. item_infos t (c ∷ rest)) (sym (append-nil before))
item_infos-text before (d ∷ []) rest c p = rw (not_percent d p.0) refl
item_infos-text before (d ∷ e ∷ text) rest c p = rw (not_percent d p.0) (
    item_infos-text (before ++ d ∷ []) (e ∷ text) rest c p.1
    ∙ ap (λ t. item_infos t (c ∷ rest)) (append_assoc before (d ∷ []) (e ∷ text)))

item_infos-tail : (before tail : Bytes) → IsPlain tail → item_infos before tail ≡ []
unfolding item_infos
item_infos-tail before [] p = refl
item_infos-tail before (c ∷ []) p = ground arith
item_infos-tail before (c ∷ d ∷ s) p =
    ground (arith, item_infos-tail (before ++ c ∷ []) (d ∷ s) p.1)

-- A pattern of plain texts, each before a percent sign with the letter of a field, and of a plain
-- text at the end, is accepted, and formats a line as those texts, each before the value of its
-- field. The text at the end is left out.
pub parse_logpattern-rendered :
    (now : Bytes) (i : LogInfo) (ps : Pieces) (tail : Bytes)
    → ArePlain ps
    → IsPlain tail
    → (items : List LogFormatItem) × (parse_logpattern (pattern ps tail) ≡ some items)
      × (format now i items ≡ rendered now i ps)
unfolding parse_logpattern make_items get_format_item format rendered format_item
parse_logpattern-rendered now i [] tail p q = ([], ap make_items (item_infos-tail [] tail q), refl)
parse_logpattern-rendered now i ((text, f) ∷ ps) tail p q =
    let (items, made, same) = parse_logpattern-rendered now i ps tail p.1 q in
    (
      string_item text ∷ item_of f ∷ items,
      ap make_items (
            item_infos-text [] text (letter f ∷ pattern ps tail) b'%' p.0
            ∙ item_infos-letter text (pattern ps tail) f)
          ∙ ap
              (λ o.
                add_item (some (string_item text))
                  (add_item o (make_items (item_infos [] (pattern ps tail)))))
              (get_format_item-letter f)
          ∙ ap (λ o. add_item (some (string_item text)) (add_item (some (item_of f)) o)) made,
      ap (λ t. text ++ t)
          (ap (λ s. s ++ format now i items) (format_item-item_of now i f)
            ∙ ap (λ t. shown now i f ++ t) same),
    )
