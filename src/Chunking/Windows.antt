-- ===== src/Chunking/Windows.antt =====
-- chunking.py: the loop of _line_windows, as the first and last line of each chunk.
use repomesh.Prelude.{ℕ, zero, suc, ◌+◌, ◌-◌, min, max, List, [], ◌∷◌, leb, ◌==◌, if◌then◌else◌}

abbrev pub Window : Type 0
Window = ℕ × ℕ

-- The rounds of `while start <= last`.
unfoldable pub windows : ℕ → ℕ → ℕ → ℕ → ℕ → List Window
windows zero lines step start last = []
windows (suc n) lines step start last =
    let stop = min last (start + lines - 1) in
    let rest = windows n lines step (start + step) last in
    if leb start last then ((start, stop) ∷ (if stop == last then [] else rest)) else []

-- max(1, fallback_lines - overlap)
abbrev pub step_of : ℕ → ℕ → ℕ
step_of lines overlap = max 1 (lines - overlap)

-- Each round takes at least one line on, so there are no more rounds than lines.
unfoldable pub line_windows : ℕ → ℕ → ℕ → ℕ → List Window
unfolding windows
line_windows lines overlap first last =
    windows (last + 1 - first) lines (step_of lines overlap) first last
