-- ===== src/Mcp/Tests.antt =====
-- A page of four rows under a budget that two rows meet.
use celery_insights.Common.{ℕ, ◌+◌, ◌*◌, refl, none, List, [], ◌∷◌, String, take}
use celery_insights.Mcp.{Page, make, page, shrink, finish, pop, last}
use celery_insights.Mcp.Paging.{IsPage, page-IsPage}

-- Ten thousand bytes for each row.
abbrev size : Page ℕ → ℕ
size p = 100 + 10000 * p.returned

abbrev huge : Page ℕ → ℕ
huge p = 30000

abbrev token : ℕ → String
token n = "cursor"

abbrev rows : List ℕ
rows = 1 ∷ 2 ∷ 3 ∷ 4 ∷ []

page-IsPage_example :
    (n : ℕ) × IsPage size token none rows 3 n (make size token none rows (1 ∷ 2 ∷ []))
unfolding page shrink finish take pop make last
page-IsPage_example =
    page-IsPage size token none rows 3 (make size token none rows (1 ∷ 2 ∷ [])) refl
