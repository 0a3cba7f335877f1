-- ===== src/Chunking/Texts.antt =====
-- What chunking.py uses of Python's str: splitlines, rstrip, strip, lower, and the suffix of a
-- path. A text is the list of its characters.
use repomesh.Prelude.{
  ℕ, ◌+◌, ◌/◌, ◌%◌, zero, suc, ◌≡◌, refl, Bool, true, false, not, ◌&&◌, ◌||◌, Option, none, some,
  List, [], ◌∷◌, ◌++◌, ltb, leb, ◌==◌, Bool-cases, inl, inr, if◌then◌else◌,
}

abbrev pub Text : Type 0
Text = List ℕ

-- The characters that end a line for str.splitlines.
unfoldable pub is_break : ℕ → Bool
is_break c = leb 10 c && leb c 13 || leb 28 c && leb c 30 || c == 133 || leb 8232 c && leb c 8233

-- The characters that str.strip removes.
unfoldable pub is_space : ℕ → Bool
is_space c =
    leb 9 c && leb c 13
    || leb 28 c && leb c 32
    || c == 133
    || c == 160
    || c == 5760
    || leb 8192 c && leb c 8202
    || leb 8232 c && leb c 8233
    || c == 8239
    || c == 8287
    || c == 12288

abbrev starts_with : ℕ → Text → Bool
starts_with c [] = false
starts_with c (d ∷ ds) = c == d

abbrev push : ℕ → List Text → List Text
push c [] = (c ∷ []) ∷ []
push c (line ∷ lines) = (c ∷ line) ∷ lines

-- splitlines(keepends=True): a carriage return before a line feed does not end its line.
unfoldable pub split_lines : Text → List Text
unfolding is_break
split_lines [] = []
split_lines (c ∷ cs) =
    let rest = split_lines cs in
    if is_break c && not (c == 13 && starts_with 10 cs) then (c ∷ []) ∷ rest else push c rest

-- "".join(lines)
unfoldable pub join : List Text → Text
join [] = []
join (line ∷ lines) = line ++ join lines

join-push : (c : ℕ) (lines : List Text) → join (push c lines) ≡ c ∷ join lines
unfolding join
join-push c [] = refl
join-push c (line ∷ lines) = refl

-- The lines of a text, with their ends, joined are the text.
pub join-split_lines : (cs : Text) → join (split_lines cs) ≡ cs
unfolding join split_lines
join-split_lines [] = refl
join-split_lines (c ∷ cs) = elim (Bool-cases (is_break c && not (c == 13 && starts_with 10 cs))) [
  | inl ends ↦ rw (ends, join-split_lines cs)
  | inr inside ↦ rw (inside, join-push c (split_lines cs), join-split_lines cs)
]

abbrev keep_unless : Bool → ℕ → Text → Text
keep_unless drop c [] = if drop then [] else (c ∷ [])
keep_unless drop c (d ∷ ds) = c ∷ d ∷ ds

unfoldable pub rstrip : Text → Text
unfolding is_space
rstrip [] = []
rstrip (c ∷ cs) = keep_unless (is_space c) c (rstrip cs)

unfoldable pub lstrip : Text → Text
unfolding is_space
lstrip [] = []
lstrip (c ∷ cs) = let rest = lstrip cs in if is_space c then rest else (c ∷ cs)

-- The ends of a line, which stand at its end only.
unfoldable pub drop_ends : Text → Text
unfolding is_break
drop_ends [] = []
drop_ends (c ∷ cs) = let rest = drop_ends cs in if is_break c then rest else (c ∷ rest)

-- str(n)
decimal_from : ℕ → ℕ → Text → Text
decimal_from zero n rest = rest
decimal_from (suc k) n rest =
    let digit = b'0' + n % 10 in
    let more = decimal_from k (n / 10) (digit ∷ rest) in if ltb n 10 then (digit ∷ rest) else more

unfoldable pub decimal : ℕ → Text
unfolding decimal_from
decimal n = decimal_from (suc n) n []

-- replace("\\", "/")
unfoldable pub with_slashes : Text → Text
with_slashes [] = []
with_slashes (c ∷ cs) = (if c == 92 then b'/' else c) ∷ with_slashes cs

has_slash : Text → Bool
has_slash [] = false
has_slash (c ∷ cs) = c == b'/' || has_slash cs

-- The name of a path that does not end in a slash.
unfoldable pub file_name : Text → Text
unfolding has_slash
file_name [] = []
file_name (c ∷ cs) =
    let rest = file_name cs in if has_slash cs then rest else if c == b'/' then cs else (c ∷ cs)

abbrev or_dot : ℕ → Text → Option Text → Option Text
or_dot c cs (some found) = some found
or_dot c cs none = if c == b'.' then some (c ∷ cs) else none

from_last_dot : Text → Option Text
from_last_dot [] = none
from_last_dot (c ∷ cs) = or_dot c cs (from_last_dot cs)

abbrev proper : Option Text → Text
proper none = []
proper (some []) = []
proper (some (c ∷ [])) = []
proper (some (c ∷ d ∷ cs)) = c ∷ d ∷ cs

-- Path(path).suffix: from the last dot of the name, if it is neither first nor last.
unfoldable pub suffix : Text → Text
unfolding file_name from_last_dot
suffix path = elim (file_name path) [ [] ↦ [] | c ∷ cs ↦ proper (from_last_dot cs) ]

-- lower(), on the letters of ASCII and the Kelvin sign, which becomes a k. No other character
-- becomes one that the tests of this library look for.
unfoldable pub lower : Text → Text
lower [] = []
lower (c ∷ cs) =
    (if leb b'A' c && leb c b'Z' then c + 32 else if c == 8490 then b'k' else c) ∷ lower cs

unfoldable pub same_text : Text → Text → Bool
same_text [] [] = true
same_text [] (d ∷ ds) = false
same_text (c ∷ cs) [] = false
same_text (c ∷ cs) (d ∷ ds) = c == d && same_text cs ds
