-- ===== src/Common/Split.antt =====
-- What `split` makes of a text with a known number of separators.
use Prim.Native.Nat.{ℕ}
use mathlib.Core.Path.{◌≡◌, refl}
use mathlib.Core.Bool.{Bool, true, not}
use mathlib.Core.List.{List, [], ◌∷◌, ◌++◌}
use native.Mathlib.Omega.{arith}
use celery_insights.Common.Numbers.{nat_eq}
use celery_insights.Common.Lists.{all}
use celery_insights.Common.Equality.{Eq-ℕ}
use celery_insights.Common.Text.{split}

-- `join` with a character.
unfoldable pub join_with : ℕ → List (List ℕ) → List ℕ
join_with separator [] = []
join_with separator (piece ∷ []) = piece
join_with separator (piece ∷ next ∷ pieces) =
    piece ++ separator ∷ join_with separator (next ∷ pieces)

-- No character of the text is the separator.
abbrev pub lacks : ℕ → List ℕ → Bool
lacks separator text = all (λ c. not (nat_eq c separator)) text

pub split-lacks :
    (separator : ℕ) (text : List ℕ) → lacks separator text ≡ true → split separator text ≡ text ∷ []
unfolding split all
split-lacks separator [] h = refl
split-lacks separator (c ∷ text) h = ground (arith, split-lacks separator text, h)

pub split-append :
    (separator : ℕ) (text rest : List ℕ)
    → lacks separator text ≡ true
    → split separator (text ++ separator ∷ rest) ≡ text ∷ split separator rest
unfolding split all
split-append separator [] rest h = ground (arith, (Eq-ℕ.equals_iff separator separator).1 refl)
split-append separator (c ∷ text) rest h = ground (arith, split-append separator text rest, h)
