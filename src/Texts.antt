-- ===== src/Texts.antt =====
-- Texts as Python has them: `str.strip`, slices and the comparison that a query makes.
use hamromentorback.Base.{
  ℕ, zero, suc, Bool, true, false, ◌&&◌, Option, none, some, List, [], ◌∷◌, ◌==◌, if◌then◌else◌,
  contains,
}

-- A string is the list of its code points.
abbrev pub Text : Type 0
Text = List ℕ

-- The code points that `str.isspace` accepts.
abbrev whitespace : List ℕ
whitespace =
    9 ∷ 10 ∷ 11 ∷ 12 ∷ 13 ∷ 28 ∷ 29 ∷ 30 ∷ 31 ∷ 32 ∷ 133 ∷ 160 ∷ 5760 ∷ 8192 ∷ 8193 ∷ 8194 ∷ 8195
    ∷ 8196 ∷ 8197 ∷ 8198 ∷ 8199 ∷ 8200 ∷ 8201 ∷ 8202 ∷ 8232 ∷ 8233 ∷ 8239 ∷ 8287 ∷ 12288 ∷ []

abbrev pub is_empty : Text → Bool
is_empty [] = true
is_empty (c ∷ cs) = false

lstrip : Text → Text
lstrip [] = []
lstrip (c ∷ cs) = let rest = lstrip cs in if contains c whitespace then rest else c ∷ cs

rstrip : Text → Text
rstrip [] = []
rstrip (c ∷ cs) =
    let rest = rstrip cs in if is_empty rest && contains c whitespace then [] else c ∷ rest

-- `(text or '').strip()`
unfoldable pub strip : Option Text → Text
unfolding lstrip rstrip
strip none = []
strip (some text) = rstrip (lstrip text)

take : ℕ → Text → Text
take zero text = []
take (suc n) [] = []
take (suc n) (c ∷ cs) = c ∷ take n cs

-- `(reason or '')[:500]`
unfoldable pub audit_reason : Text → Text
unfolding take
audit_reason text = take 500 text

abbrev pub same_text : Text → Text → Bool
same_text [] [] = true
same_text [] (d ∷ ds) = false
same_text (c ∷ cs) [] = false
same_text (c ∷ cs) (d ∷ ds) = (c == d) && same_text cs ds
