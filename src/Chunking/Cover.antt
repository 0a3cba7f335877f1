-- ===== src/Chunking/Cover.antt =====
-- chunking.py: the line windows cover their lines, in pieces of bounded size.
use repomesh.Prelude.{
  ℕ, zero, suc, ◌+◌, ◌-◌, ◌≤◌, ◌≡◌, ◌==◌, min, true, false, List, [], ◌∷◌, arith, Bool-cases, inl,
  inr, All, leb, if◌then◌else◌,
}
use repomesh.Chunking.Windows.{Window, windows, step_of, line_windows}

-- Some window holds the line.
pub data Covers (line : ℕ) : List Window → Type 0 where
  here : (a b : ℕ) (ws : List Window) → a ≤ line → line ≤ b → Covers line ((a, b) ∷ ws)
  later : (w : Window) (ws : List Window) → Covers line ws → Covers line (w ∷ ws)

-- A window lies within the lines asked for, and has at most `lines` of them.
pub record Fits (lines first last : ℕ) (w : Window) : Type 0 where
  pub from_first : first ≤ w.0
  pub in_order : w.0 ≤ last
  pub to_last : w.1 ≤ last
  pub bounded : w.1 + 1 ≤ w.0 + lines

module _ (lines step last line : ℕ) (some_lines : 1 ≤ lines) (some_step : 1 ≤ step)
    (joined : step ≤ lines) (in_range : line ≤ last) where
  windows-Covers :
      (n start : ℕ)
      → last + 1 ≤ n + start
      → start ≤ line
      → Covers line (windows n lines step start last)
  unfolding windows
  windows-Covers zero start enough h = absurd (omega (arith, enough, h, in_range))
  windows-Covers (suc n) start enough h =
      let live : leb start last ≡ true = ground (arith, h, in_range) in
      rw live (elim (Bool-cases (leb line (min last (start + lines - 1)))) [
        | inl held ↦
            here start (min last (start + lines - 1))
              (if min last (start + lines - 1) == last
                then []
                else windows n lines step (start + step) last)
              h (ground arith)
        | inr past ↦
            let more : (min last (start + lines - 1) == last) ≡ false = ground (arith, in_range) in
            rw more (
              later (start, min last (start + lines - 1)) (windows n lines step (start + step) last)
                (windows-Covers n (start + step) (omega (arith, enough, some_step))
                  (ground (arith, joined, some_lines, in_range))))
      ])

-- With windows of at least one line, every line asked for is in some window, so the loop reaches
-- the last line.
pub line_windows-Covers :
    (lines overlap first last line : ℕ)
    → 1 ≤ lines
    → first ≤ line
    → line ≤ last
    → Covers line (line_windows lines overlap first last)
unfolding line_windows
line_windows-Covers lines overlap first last line some_lines h k =
    windows-Covers lines (step_of lines overlap) last line some_lines (omega arith) (omega arith) k
      (last + 1 - first) first (omega arith) h

windows-Fits :
    (lines step last first n start : ℕ)
    → 1 ≤ start
    → first ≤ start
    → All (Fits lines first last) (windows n lines step start last)
unfolding windows
windows-Fits lines step last first zero start p h = tt
windows-Fits lines step last first (suc n) start p h = elim (Bool-cases (leb start last)) [
  | inr over ↦ rw over tt
  | inl live ↦ rw live (
    record {
      from_first = h;
      in_order = ground arith;
      to_last = omega arith;
      bounded = omega (arith, p);
    },
    elim (Bool-cases (min last (start + lines - 1) == last)) [
      | inl done ↦ rw done tt
      | inr more ↦ rw more (
          windows-Fits lines step last first n (start + step) (omega (arith, p)) (omega (arith, h)))
    ],
  )
]

-- Every window lies within the lines asked for and has at most `lines` of them.
pub line_windows-Fits :
    (lines overlap first last : ℕ)
    → 1 ≤ first
    → All (Fits lines first last) (line_windows lines overlap first last)
unfolding line_windows
line_windows-Fits lines overlap first last p =
    windows-Fits lines (step_of lines overlap) last first (last + 1 - first) first p (omega arith)
