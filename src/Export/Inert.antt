-- ===== src/Export/Inert.antt =====
-- A text of a cell that a spreadsheet does not run.
use celery_insights.Common.{
  ℕ, ◌≡◌, ◌≢◌, refl, Bool, true, false, ◌||◌, ◌&&◌, ◌∷◌, [], Option, some, none, inl, inr, ◌⊎◌,
  if◌then◌else◌, includes, leb, arith, Bool-cases, Eq-ℕ,
}
use celery_insights.Export.{Text, text, csv_text, opens_formula, opens_control}

-- What a spreadsheet may skip before a formula: control characters and the space, and the other
-- blanks of Unicode.
abbrev pub is_skipped : ℕ → Bool
is_skipped c =
    leb c 32
    || ((leb 8192 c && leb c 8202)
        || includes (160 ∷ 5760 ∷ 8232 ∷ 8233 ∷ 8239 ∷ 8287 ∷ 12288 ∷ 65279 ∷ []) c)

-- The first character that is not skipped.
abbrev pub first_shown : Text → Option ℕ
first_shown [] = none
first_shown (c ∷ s) = if is_skipped c then first_shown s else some c

abbrev pub first : Text → Option ℕ
first [] = none
first (c ∷ s) = some c

-- A spreadsheet does not read the text as a formula, and no field begins at its start.
pub record IsInert (s : Text) : Type 0 where
  pub no_equals : first_shown s ≢ some b'='
  pub no_plus : first_shown s ≢ some b'+'
  pub no_minus : first_shown s ≢ some b'-'
  pub no_at : first_shown s ≢ some b'@'
  pub no_tab : first s ≢ some 9
  pub no_newline : first s ≢ some 10
  pub no_return : first s ≢ some 13

opens_formula-first_shown :
    (s : Text)
    → opens_formula s ≡ false
    → (first_shown s ≢ some b'=')
      × (first_shown s ≢ some b'+')
      × (first_shown s ≢ some b'-')
      × (first_shown s ≢ some b'@')
unfolding opens_formula includes
opens_formula-first_shown [] h = (λ e. cc, λ e. cc, λ e. cc, λ e. cc)
opens_formula-first_shown (c ∷ s) h = elim (Bool-cases (is_skipped c)) [
  | inl skipped ↦
      let (a, b, c, d) = opens_formula-first_shown s (ground (arith, h, skipped)) in
      (
        λ e. a (ground (arith, skipped, e)),
        λ e. b (ground (arith, skipped, e)),
        λ e. c (ground (arith, skipped, e)),
        λ e. d (ground (arith, skipped, e)),
      )
  | inr shown ↦ (
    λ e. ground (arith, h, shown, e),
    λ e. ground (arith, h, shown, e),
    λ e. ground (arith, h, shown, e),
    λ e. ground (arith, h, shown, e),
  )
]

guarded :
    (s : Text) (risky : Bool)
    → (opens_formula s || opens_control s) ≡ risky
    → let shown = if risky then b'\'' ∷ s else s in
      IsInert shown × ((shown ≡ s) ⊎ (shown ≡ b'\'' ∷ s))
unfolding includes
guarded s true h = (
  record {
    no_equals = λ e. ground (arith, e);
    no_plus = λ e. ground (arith, e);
    no_minus = λ e. ground (arith, e);
    no_at = λ e. ground (arith, e);
    no_tab = λ e. ground (arith, e);
    no_newline = λ e. ground (arith, e);
    no_return = λ e. ground (arith, e);
  },
  inr refl,
)
guarded s false h =
    let (a, b, c, d) = opens_formula-first_shown s (ground (arith, h)) in
    (
      record {
        no_equals = a;
        no_plus = b;
        no_minus = c;
        no_at = d;
        no_tab = λ e. ground (arith, h, e);
        no_newline = λ e. ground (arith, h, e);
        no_return = λ e. ground (arith, h, e);
      },
      inl refl,
    )

-- In the text of a string, the first character after any blanks and control characters is none of
-- `=`, `+`, `-` and `@`, and the first character of all is no tab and no line break; the text is the
-- string itself, or the string after an apostrophe.
pub csv_text-IsInert :
    (s : Text)
    → IsInert (csv_text (text s)) × ((csv_text (text s) ≡ s) ⊎ (csv_text (text s) ≡ b'\'' ∷ s))
unfolding csv_text
csv_text-IsInert s = guarded s (opens_formula s || opens_control s) refl
