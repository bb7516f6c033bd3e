-- ===== src/Model/Preview.antt =====
-- `Message.PreviewText` of internal/model/model.go, over runes.
use google_messages_multidev.Model.{Attachment, Message}
use google_messages_multidev.Prelude.Core.{Bool, List, [], false, true, ℕ, ◌&&◌, ◌++◌, ◌||◌, ◌∷◌}
use google_messages_multidev.Prelude.Lists.{length, take}
use google_messages_multidev.Prelude.Tests.{if◌then◌else◌, leb, ltb, ◌==◌}
use google_messages_multidev.Prelude.Text.{Text, is_empty, text_eq, txt}

-- `unicode.IsSpace`.
is_space : ℕ → Bool
is_space c =
    (leb 9 c && leb c 13)
    || (c == 32
        || (c == 0x85
            || (c == 0xa0
                || (c == 0x1680
                    || ((leb 0x2000 c && leb c 0x200a)
                        || (c == 0x2028
                            || (c == 0x2029 || (c == 0x202f || (c == 0x205f || c == 0x3000)))))))))

-- `strings.Join(strings.Fields(s), " ")`: `gap` says that white space was passed since the last
-- rune of a word, `begun` that a word was written.
join_fields : Bool → Bool → Text → Text
join_fields begun gap [] = []
join_fields begun gap (c ∷ s) =
    let skip = join_fields begun true s in
    let keep = join_fields true false s in
    if is_space c then skip else if begun && gap then 32 ∷ c ∷ keep else c ∷ keep

-- `strings.TrimRight(s, " ")`.
trim_right : Text → Text
trim_right [] = []
trim_right (c ∷ s) = let rest = trim_right s in if (c == 32) && is_empty rest then [] else c ∷ rest

-- The part before the first slash, as `strings.Cut` gives it.
before_slash : Text → Text
before_slash [] = []
before_slash (c ∷ s) = let rest = before_slash s in if c == 47 then [] else c ∷ rest

media_label : Text → Text
media_label kind =
    if text_eq kind (txt "image")
    then txt "Photo"
    else if text_eq kind (txt "video")
    then txt "Video"
    else if text_eq kind (txt "audio")
    then txt "Audio message"
    else txt "Attachment"

abbrev pub preview_limit : ℕ
preview_limit = 160

-- The label of the first attachment, for a message that has no text.
describe : Text → List Attachment → Text
unfolding media_label before_slash
describe [] (a ∷ rest) = media_label (before_slash a.mime)
describe text attachments = text

shorten : Text → Text
shorten text =
    if ltb preview_limit (length text)
    then trim_right (take preview_limit text) ++ 0x2026 ∷ []
    else text

unfoldable pub preview_text : Message → Text
unfolding join_fields describe shorten is_space trim_right
preview_text m = shorten (describe (join_fields false false m.text) m.attachments)
