-- ===== src/Security/Sessions/Cookies.antt =====
-- Reading back a cookie: `readCookie` on what a browser sends of a `Set-Cookie` header.
use celery_insights.Common.{
  ℕ, ◌≡◌, refl, ◌∙◌, ap, sym, Bool, true, not, ◌&&◌, some, List, [], ◌∷◌, ◌++◌, all, nat_eq,
  ==_refl, Eq-String, Eq-List, Eq-ℕ, arith, all-append, all-reverse_aux,
}
use celery_insights.Common.Text.{split, strip}
use celery_insights.Security.Sessions.{Cookie, is_blank, drop_blanks, trim, values_of, read_cookie}
use mathlib.Core.List.{reverse, reverse-reverse, append_assoc}

-- A character that needs no quotes in a cookie: neither blank nor `;`.
abbrev pub is_plain : ℕ → Bool
is_plain c = not (is_blank c) && not (nat_eq c b';')

drop_blanks-plain : (text : List ℕ) → all is_plain text ≡ true → drop_blanks text ≡ text
unfolding drop_blanks all
drop_blanks-plain [] h = refl
drop_blanks-plain (c ∷ text) h = ground arith

trim-plain : (text : List ℕ) → all is_plain text ≡ true → trim text ≡ text
unfolding trim all
trim-plain text h =
    ap (λ x. reverse (drop_blanks (reverse x))) (drop_blanks-plain text h)
    ∙ ap reverse
        (drop_blanks-plain (reverse text) (all-reverse_aux is_plain text [] ∙ ground (arith, h)))
    ∙ reverse-reverse text

split-plain : (text : List ℕ) → all is_plain text ≡ true → split b';' text ≡ text ∷ []
unfolding split all
split-plain [] h = refl
split-plain (c ∷ text) h = ground (arith, split-plain text)

strip-append : (prefix text : List ℕ) → strip prefix (prefix ++ text) ≡ some text
unfolding strip
strip-append [] text = refl
strip-append (c ∷ prefix) text = ground (arith, strip-append prefix text, ==_refl c)

-- The cookie that a browser keeps of a `Set-Cookie` header, as it sends it.
abbrev pub pair_of : Cookie → List ℕ
pair_of c = c.name ++ b'=' ∷ c.value

plain_pair :
    (name token : List ℕ)
    → all is_plain name ≡ true
    → all is_plain token ≡ true
    → all is_plain (name ++ b'=' ∷ token) ≡ true
unfolding all
plain_pair name token h k = all-append is_plain name (b'=' ∷ token) ∙ rw (h, k) refl

values_of-one :
    (prefix piece value : List ℕ)
    → strip prefix piece ≡ some value
    → values_of prefix (piece ∷ []) ≡ value ∷ []
unfolding values_of
values_of-one prefix piece value h = ground (arith, h)

values_of-pair :
    (name token : List ℕ) → values_of (name ++ b'=' ∷ []) ((name ++ b'=' ∷ token) ∷ []) ≡ token ∷ []
values_of-pair name token = values_of-one (name ++ b'=' ∷ []) (name ++ b'=' ∷ token) token (
    ap (strip (name ++ b'=' ∷ [])) (sym (append_assoc name (b'=' ∷ []) token))
    ∙ strip-append (name ++ b'=' ∷ []) token)

pub read_cookie-pair :
    (name token : List ℕ)
    → all is_plain name ≡ true
    → all is_plain token ≡ true
    → read_cookie (some (name ++ b'=' ∷ token)) name ≡ some token
unfolding read_cookie
read_cookie-pair name token h k =
    let plain = plain_pair name token h k in
    rw
      (
        split-plain (name ++ b'=' ∷ token) plain,
        trim-plain (name ++ b'=' ∷ token) plain,
        values_of-pair name token,
      )
      refl
