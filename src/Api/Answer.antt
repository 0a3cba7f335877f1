-- ===== src/Api/Answer.antt =====
-- api.py: answer, with the label of models.py. The search, the generator and the clock are outside.
use repomesh.Prelude.{
  ℕ, zero, suc, ◌-◌, Bool, true, false, not, ◌&&◌, ◌||◌, Option, none, some, List, [], ◌∷◌, ◌++◌,
  ◌==◌, ltb, length, map, take, if◌then◌else◌,
}
use repomesh.Chunking.Texts.{Text, lower, rstrip, decimal}
use repomesh.Indexing.Paths.{has_path}

-- A result of the search, with what answer reads of it.
pub record Found : Type 0 where
  pub chunk_id : Text
  pub file_path : Text
  pub start_line : ℕ
  pub end_line : ℕ
  pub content : Text

pub record Citation : Type 0 where
  pub chunk_id : Text
  pub file_path : Text
  pub start_line : ℕ
  pub end_line : ℕ

-- f"[{self.file_path}:{self.start_line}-{self.end_line}]"
unfoldable pub label : Citation → Text
label c =
    b'['
    ∷ (c.file_path ++ b':' ∷ (decimal c.start_line ++ b'-' ∷ (decimal c.end_line ++ b']' ∷ [])))

-- The loop over the results: the first ones, for as long as each fits what is left.
unfoldable pub contexts_within : ℕ → List Found → List Found
contexts_within budget [] = []
contexts_within budget (x ∷ xs) =
    let rest = contexts_within (budget - length x.content) xs in
    if ltb budget (length x.content) then [] else (x ∷ rest)

unfoldable pub citation_of : Found → Citation
citation_of x = record {
  chunk_id = x.chunk_id;
  file_path = x.file_path;
  start_line = x.start_line;
  end_line = x.end_line;
}

-- The text up to a bracket that closes, and what is after it; none at the end of the line.
unfoldable pub until_close : Text → Option (Text × Text)
until_close [] = none
until_close (c ∷ cs) =
    let rest = until_close cs in
    if c == b']'
    then some ([], cs)
    else if c == 10
    then none
    else elim rest [ none ↦ none | some (body, after) ↦ some (c ∷ body, after) ]

-- What \d+, a character, and the rest of the pattern leave, on a text that is read from its end.
unfoldable pub skip_digits : (ℕ → Bool) → Bool → Text → Option Text
skip_digits is_digit seen [] = none
skip_digits is_digit seen (c ∷ cs) =
    let rest = skip_digits is_digit true cs in
    if is_digit c then rest else if seen then some (c ∷ cs) else none

abbrev after_mark : ℕ → Option Text → Option Text
after_mark mark none = none
after_mark mark (some []) = none
after_mark mark (some (c ∷ cs)) = if c == mark then some cs else none

abbrev digits_before : (ℕ → Bool) → Option Text → Option Text
digits_before is_digit none = none
digits_before is_digit (some t) = skip_digits is_digit false t

abbrev is_filled : Option Text → Bool
is_filled none = false
is_filled (some []) = false
is_filled (some (c ∷ cs)) = true

unfoldable pub reversed_onto : Text → Text → Text
reversed_onto acc [] = acc
reversed_onto acc (c ∷ cs) = reversed_onto (c ∷ acc) cs

-- The text between the brackets is [^\]\n]+:\d+-\d+. `is_digit` is \d.
unfoldable pub is_reference : (ℕ → Bool) → Text → Bool
unfolding skip_digits reversed_onto
is_reference is_digit body = is_filled (
    after_mark b':' (
      digits_before is_digit
        (after_mark b'-' (skip_digits is_digit false (reversed_onto [] body)))))

-- re.findall of \[[^\]\n]+:\d+-\d+\]; `skip` characters belong to the last match.
unfoldable pub find_labels : (ℕ → Bool) → ℕ → Text → List Text
unfolding until_close is_reference
find_labels is_digit skip [] = []
find_labels is_digit (suc skip) (c ∷ cs) = find_labels is_digit skip cs
find_labels is_digit zero (c ∷ cs) =
    let later : List Text = find_labels is_digit zero cs in
    let past : ℕ → List Text = λ n. find_labels is_digit n cs in
    if c == b'['
    then (elim (until_close cs) [
      | none ↦ later
      | some (body, after) ↦
          if is_reference is_digit body
          then ((b'[' ∷ (body ++ b']' ∷ [])) ∷ past (suc (length body)))
          else later
    ])
    else later

unfoldable pub starts_with : Text → Text → Bool
starts_with [] t = true
starts_with (c ∷ cs) [] = false
starts_with (c ∷ cs) (d ∷ ds) = c == d && starts_with cs ds

-- sub in text
unfoldable pub contains : Text → Text → Bool
unfolding starts_with
contains sub [] = starts_with sub []
contains sub (c ∷ cs) = starts_with sub (c ∷ cs) || contains sub cs

-- text.replace(old, new), of an old text that is not empty.
unfoldable pub replace : Text → Text → ℕ → Text → Text
unfolding starts_with
replace old new skip [] = []
replace old new (suc skip) (c ∷ cs) = replace old new skip cs
replace old new zero (c ∷ cs) =
    let found : ℕ → Text = λ n. new ++ replace old new n cs in
    let kept = c ∷ replace old new zero cs in
    if starts_with old (c ∷ cs) then found (length old - 1) else kept

abbrev pub unverified : Text
unverified =
    b'[' ∷ b'u' ∷ b'n' ∷ b'v' ∷ b'e' ∷ b'r' ∷ b'i' ∷ b'f' ∷ b'i' ∷ b'e' ∷ b'd' ∷ 32 ∷ b'c' ∷ b'i'
    ∷ b't' ∷ b'a' ∷ b't' ∷ b'i' ∷ b'o' ∷ b'n' ∷ 32 ∷ b'r' ∷ b'e' ∷ b'm' ∷ b'o' ∷ b'v' ∷ b'e' ∷ b'd'
    ∷ b']' ∷ []

-- The loop over the labels of the generated text.
unfoldable pub remove_unverified : List Text → List Text → Text → Text
unfolding has_path replace
remove_unverified allowed [] t = t
remove_unverified allowed (l ∷ ls) t =
    remove_unverified allowed ls (if has_path l allowed then t else replace l unverified zero t)

unfoldable pub has_label : List Text → Text → Bool
unfolding contains
has_label [] t = false
has_label (l ∷ ls) t = contains l t || has_label ls t

-- " ".join(labels)
unfoldable pub spaced : List Text → Text
spaced [] = []
spaced (l ∷ []) = l
spaced (l ∷ m ∷ ls) = l ++ 32 ∷ spaced (m ∷ ls)

abbrev pub sources : Text
sources = 10 ∷ 10 ∷ b'S' ∷ b'o' ∷ b'u' ∷ b'r' ∷ b'c' ∷ b'e' ∷ b's' ∷ b':' ∷ 32 ∷ []

abbrev pub insufficient : Text
insufficient =
    b'E' ∷ b'v' ∷ b'i' ∷ b'd' ∷ b'e' ∷ b'n' ∷ b'c' ∷ b'e' ∷ 32 ∷ b'i' ∷ b'n' ∷ b's' ∷ b'u' ∷ b'f'
    ∷ b'f' ∷ b'i' ∷ b'c' ∷ b'i' ∷ b'e' ∷ b'n' ∷ b't' ∷ b':' ∷ 32 ∷ b'n' ∷ b'o' ∷ 32 ∷ b'i' ∷ b'n'
    ∷ b'd' ∷ b'e' ∷ b'x' ∷ b'e' ∷ b'd' ∷ 32 ∷ b's' ∷ b'o' ∷ b'u' ∷ b'r' ∷ b'c' ∷ b'e' ∷ 32 ∷ b'm'
    ∷ b'a' ∷ b't' ∷ b'c' ∷ b'h' ∷ b'e' ∷ b'd' ∷ 32 ∷ b't' ∷ b'h' ∷ b'e' ∷ 32 ∷ b'q' ∷ b'u' ∷ b'e'
    ∷ b's' ∷ b't' ∷ b'i' ∷ b'o' ∷ b'n' ∷ b'.' ∷ []

abbrev pub evidence_insufficient : Text
evidence_insufficient =
    b'e' ∷ b'v' ∷ b'i' ∷ b'd' ∷ b'e' ∷ b'n' ∷ b'c' ∷ b'e' ∷ 32 ∷ b'i' ∷ b'n' ∷ b's' ∷ b'u' ∷ b'f'
    ∷ b'f' ∷ b'i' ∷ b'c' ∷ b'i' ∷ b'e' ∷ b'n' ∷ b't' ∷ []

abbrev pub with_sources : List Text → Text → Text
with_sources [] t = insufficient
with_sources (l ∷ ls) t =
    if has_label (l ∷ ls) t then t else (rstrip t ++ sources ++ spaced (take 3 (l ∷ ls)))

-- The text of the answer: unknown labels are removed, and sources are added where none is named.
unfoldable pub cited_text : (ℕ → Bool) → List Text → Text → Text
unfolding find_labels remove_unverified has_label spaced rstrip
cited_text is_digit labels generated =
    with_sources labels (remove_unverified labels (find_labels is_digit zero generated) generated)

pub record AnswerResponse : Type 0 where
  pub answer : Text
  pub citations : List Citation
  pub chunks : List Found
  pub evidence_sufficient : Bool

abbrev is_filled_list : List Citation → Bool
is_filled_list [] = false
is_filled_list (c ∷ cs) = true

abbrev response : (ℕ → Bool) → List Found → List Citation → Text → AnswerResponse
response is_digit results citations text = record {
  answer = text;
  citations = citations;
  chunks = results;
  evidence_sufficient =
      is_filled_list citations && not (starts_with evidence_insufficient (lower text));
}

-- `generate` is the generator's text for the contexts.
unfoldable pub answer : (ℕ → Bool) → (List Found → Text) → ℕ → List Found → AnswerResponse
unfolding contexts_within citation_of label cited_text starts_with lower
answer is_digit generate budget results =
    let contexts = contexts_within budget results in
    let citations = map citation_of contexts in
    response is_digit results citations
      (cited_text is_digit (map label citations) (generate contexts))
