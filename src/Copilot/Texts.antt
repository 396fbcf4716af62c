-- ===== src/Copilot/Texts.antt =====
-- The tests of texts in src/edgar_moe/copilot/verification.py and src/edgar_moe/copilot/policy.py,
-- with their regular expressions written out.
use edgar_moe.Common.{
  ℕ, suc, String, Bool, true, false, ◌&&◌, ◌||◌, List, [], ◌∷◌, ◌==◌, string_eq, nat_eq, leb,
}

abbrev pub text_length : String → ℕ
text_length String.[] = 0
text_length (String.◌∷◌ c s) = suc (text_length s)

-- `text.startswith(prefix)`
abbrev pub starts_with : (prefix text : String) → Bool
starts_with String.[] text = true
starts_with (String.◌∷◌ c cs) String.[] = false
starts_with (String.◌∷◌ c cs) (String.◌∷◌ d ds) =
    (String.◌∷◌ c String.[] == String.◌∷◌ d String.[]) && starts_with cs ds

-- `part in text`
abbrev pub contains : (part text : String) → Bool
contains part String.[] = part == ""
contains part (String.◌∷◌ c s) = starts_with part (String.◌∷◌ c s) || contains part s

-- Every character of the text is one of those of the class.
abbrev pub all_in : (class text : String) → Bool
all_in class String.[] = true
all_in class (String.◌∷◌ c s) = contains (String.◌∷◌ c String.[]) class && all_in class s

abbrev pub one_of : String → List String → Bool
one_of text [] = false
one_of text (t ∷ ts) = (text == t) || one_of text ts

-- `[0-9a-f]{64}`
unfoldable pub is_digest : String → Bool
is_digest text = (text_length text == 64) && all_in "0123456789abcdef" text

-- `[a-z][a-z0-9_]{1,63}`
unfoldable pub is_tool_name : String → Bool
is_tool_name String.[] = false
is_tool_name (String.◌∷◌ c s) =
    contains (String.◌∷◌ c String.[]) "abcdefghijklmnopqrstuvwxyz"
    && (all_in "abcdefghijklmnopqrstuvwxyz0123456789_" s
        && (leb 1 (text_length s) && leb (text_length s) 63))
