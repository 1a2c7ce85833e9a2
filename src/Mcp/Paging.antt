-- ===== src/Mcp/Paging.antt =====
-- The loop of a page of the MCP tools, and what its answer or refusal says of the rows.
use celery_insights.Common.{
  ℕ, zero, suc, ◌≤◌, ◌<◌, ◌≡◌, refl, sym, ap, ◌∙◌, Bool, true, false, not, ◌&&◌, Option, List, [],
  ◌∷◌, String, if◌then◌else◌, length, take, arith, subst, length-take-le, Bool-cases, inl, inr, ◌⊎◌,
}
use celery_insights.Mcp.{
  max_response_bytes, Page, answer, refusal, result_exceeds, pop, is_empty_list, make, exceeds,
  shrink, finish, page, ToolError,
}

le-cases : (m n : ℕ) → m ≤ suc n → (m ≤ n) ⊎ (m ≡ suc n)
le-cases m n h = ground arith

zero-cases : (n : ℕ) → (n ≡ 0) ⊎ (0 < n)
zero-cases n = ground arith

pop-take :
    {T : Type 0} (n : ℕ) (xs : List T) → suc n ≤ length xs → pop (take (suc n) xs) ≡ take n xs
unfolding pop take
pop-take zero [] h = refl
pop-take zero (x ∷ xs) h = refl
pop-take (suc n) [] h = refl
pop-take (suc n) (x ∷ []) h = ground arith
pop-take (suc n) (x ∷ y ∷ ys) h = ap (λ zs. x ∷ zs) (pop-take n (y ∷ ys) (omega arith))

module _ {T : Type 0} (utf8_size : Page T → ℕ) (encode : T → String) (total : Option ℕ) where
  -- `n` rows are the most that fit: a longer prefix, up to `bound` rows, exceeds the budget, and
  -- `n` rows do not, unless there are none.
  pub record IsLongest (rows : List T) (bound n : ℕ) : Type 0 where
    pub most : n ≤ bound
    pub fits : (0 < n) → exceeds utf8_size encode total rows (take n rows) ≡ false
    pub longer :
        (m : ℕ) → n < m → m ≤ bound → exceeds utf8_size encode total rows (take m rows) ≡ true

  -- One round of the loop, on a prefix of the rows.
  shrink-suc :
      (n : ℕ) (rows : List T)
      → suc n ≤ length rows
      → shrink utf8_size encode total (suc n) rows (take (suc n) rows) ≡ (
          if exceeds utf8_size encode total rows (take (suc n) rows)
          then shrink utf8_size encode total n rows (take n rows)
          else take (suc n) rows)
  unfolding shrink take
  shrink-suc n [] h = ground arith
  shrink-suc n (x ∷ xs) h =
      ap
        (λ items.
          if exceeds utf8_size encode total (x ∷ xs) (take (suc n) (x ∷ xs))
          then shrink utf8_size encode total n (x ∷ xs) items
          else take (suc n) (x ∷ xs))
        (pop-take n (x ∷ xs) h)

  shrink-take :
      (fuel : ℕ) (rows : List T)
      → fuel ≤ length rows
      → (n : ℕ) × ((shrink utf8_size encode total fuel rows (take fuel rows) ≡ take n rows)
          × IsLongest rows fuel n)
  unfolding shrink
  shrink-take zero rows h = (
    zero,
    (
      refl,
      record {
        most = omega arith;
        fits = λ lt. absurd (omega arith);
        longer = λ m lt le. absurd (omega arith);
      },
    ),
  )
  shrink-take (suc fuel) rows h =
      let (n, (same, longest)) = shrink-take fuel rows (omega arith) in
      elim (Bool-cases (exceeds utf8_size encode total rows (take (suc fuel) rows))) [
        | inl over ↦ (
          n,
          (
            shrink-suc fuel rows h ∙ rw over same,
            record {
              most = omega (arith, longest.most);
              fits = longest.fits;
              longer = λ m lt le. elim (le-cases m fuel le) [
                | inl below ↦ longest.longer m lt below
                | inr top ↦
                    subst (λ k. exceeds utf8_size encode total rows (take k rows) ≡ true) (sym top)
                      over
              ];
            },
          ),
        )
        | inr fine ↦ (
          suc fuel,
          (
            shrink-suc fuel rows h ∙ rw fine refl,
            record {
              most = omega arith;
              fits = λ lt. fine;
              longer = λ m lt le. absurd (omega arith);
            },
          ),
        )
      ]

take-length :
    {T : Type 0} (limit : ℕ) (xs : List T)
    → (take (length (take limit xs)) xs ≡ take limit xs) × (length (take limit xs) ≤ length xs)
unfolding take
take-length zero xs = (refl, omega arith)
take-length (suc n) [] = (refl, omega arith)
take-length (suc n) (x ∷ xs) =
    let (same, le) = take-length n xs in (ap (λ ys. x ∷ ys) same, omega (arith, le))

take-is_empty_list :
    {T : Type 0} (n : ℕ) (xs : List T)
    → (not (is_empty_list xs) && is_empty_list (take n xs)) ≡ false
    → (xs ≡ []) ⊎ (0 < n)
unfolding take
take-is_empty_list n [] h = inl refl
take-is_empty_list zero (x ∷ xs) h = ground arith
take-is_empty_list (suc n) (x ∷ xs) h = inr (omega arith)

take-empty :
    {T : Type 0} (n : ℕ) (xs : List T) → is_empty_list (take n xs) ≡ true → 0 < n → length xs ≡ 0
unfolding take
take-empty zero xs h pos = ground arith
take-empty (suc n) [] h pos = refl
take-empty (suc n) (x ∷ xs) h pos = ground arith

true-false : {b : Bool} → b ≡ true → b ≡ false → ⊥
true-false h h' = ground arith

module _ {T : Type 0} (utf8_size : Page T → ℕ) (encode : T → String) (total : Option ℕ) where
  -- What an answered page is.
  pub record IsPage (rows : List T) (limit n : ℕ) (p : Page T) : Type 0 where
    pub made : p ≡ make utf8_size encode total rows (take n rows)
    pub within : n ≤ limit
    pub longest : IsLongest utf8_size encode total rows (length (take limit rows)) n
    pub advances : (rows ≡ []) ⊎ (0 < n)
    pub budget : utf8_size p ≤ max_response_bytes

  finish-answer :
      (q p : Page T)
      → finish utf8_size encode total q ≡ answer p
      → (q ≡ p) × (utf8_size p ≤ max_response_bytes)
  unfolding finish
  finish-answer q p h = ground arith

  page-answer :
      (rows : List T) (items : List T) (p : Page T)
      → (if not (is_empty_list rows) && is_empty_list items
          then refusal result_exceeds
          else finish utf8_size encode total (make utf8_size encode total rows items))
        ≡ answer p
      → ((not (is_empty_list rows) && is_empty_list items) ≡ false)
        × (finish utf8_size encode total (make utf8_size encode total rows items) ≡ answer p)
  page-answer rows items p h = ground arith

  -- An answered page holds the longest prefix of the rows, of at most `limit` rows, whose page
  -- fits the response budget; it fits the budget itself, and it is not empty unless no row is
  -- left.
  pub page-IsPage :
      (rows : List T) (limit : ℕ) (p : Page T)
      → page utf8_size encode total rows limit ≡ answer p
      → (n : ℕ) × IsPage rows limit n p
  unfolding page
  page-IsPage rows limit p h =
      let (prefix, le) = take-length limit rows in
      let k = length (take limit rows) in
      let (n, (same, longest)) = shrink-take utf8_size encode total k rows le in
      let shrunk = ap (shrink utf8_size encode total k rows) (sym prefix) ∙ same in
      let (some_row, finished) = page-answer rows (take n rows) p (
        subst
          (λ items.
            (if not (is_empty_list rows) && is_empty_list items
              then refusal result_exceeds
              else finish utf8_size encode total (make utf8_size encode total rows items))
            ≡ answer p)
          shrunk h) in
      let (made, budget) =
        finish-answer (make utf8_size encode total rows (take n rows)) p finished in
      (
        n,
        record {
          made = sym made;
          within = omega (arith, longest.most, length-take-le limit rows);
          longest = longest;
          advances = take-is_empty_list n rows some_row;
          budget = budget;
        },
      )

  no_prefix :
      (rows : List T) (k n : ℕ)
      → IsLongest utf8_size encode total rows k n
      → (0 < n → ⊥)
      → (m : ℕ) → 0 < m
      → m ≤ k
      → exceeds utf8_size encode total rows (take m rows) ≡ true
  no_prefix rows k n longest none_fits m lt le =
      longest.longer m
        (elim (zero-cases n) [ inl e ↦ omega (arith, e) | inr pos ↦ absurd (none_fits pos) ]) le

  refused-exceeds :
      (rows items : List T) (e : ToolError)
      → (if not (is_empty_list rows) && is_empty_list items
          then refusal result_exceeds
          else finish utf8_size encode total (make utf8_size encode total rows items))
        ≡ refusal e
      → (is_empty_list items ≡ true) ⊎ (exceeds utf8_size encode total rows items ≡ true)
  unfolding finish
  refused-exceeds rows items e h = ground arith

  -- A refusal means that no page was possible: with every prefix of the rows, from one row up to
  -- the limit, the page exceeds the response budget.
  pub page-refusal :
      (rows : List T) (limit : ℕ) (e : ToolError)
      → page utf8_size encode total rows limit ≡ refusal e
      → (m : ℕ) → 0 < m
      → m ≤ length (take limit rows)
      → exceeds utf8_size encode total rows (take m rows) ≡ true
  unfolding page
  page-refusal rows limit e h m lt le =
      let (prefix, short) = take-length limit rows in
      let k = length (take limit rows) in
      let (n, (same, longest)) = shrink-take utf8_size encode total k rows short in
      let shrunk = ap (shrink utf8_size encode total k rows) (sym prefix) ∙ same in
      let refused = refused-exceeds rows (take n rows) e (
        subst
          (λ items.
            (if not (is_empty_list rows) && is_empty_list items
              then refusal result_exceeds
              else finish utf8_size encode total (make utf8_size encode total rows items))
            ≡ refusal e)
          shrunk h) in
      no_prefix rows k n longest
        (λ pos. elim refused [
          | inl empty ↦ absurd (omega (arith, take-empty n rows empty pos, short))
          | inr over ↦ absurd (true-false over (longest.fits pos))
        ])
        m lt le
