-- ===== src/Security/Policy/Body.antt =====
-- The bounded read of a response body.
use celery_insights.Common.{
  ℕ, ◌+◌, ◌≤◌, ◌≡◌, refl, sym, subst, ◌↔◌, ◌∙◌, List, [], ◌++◌, length, length-append, arith, ok,
}
use mathlib.Core.List.{append_assoc, append-nil}
use celery_insights.Security.Policy.{Stream, done, broken, chunk, read_body_from, read_body}

-- The bytes of a body that was read to its end.
pub data Delivers : Stream → List ℕ → Type 0 where
  ends : Delivers done []
  gives :
      {value rest : List ℕ} {stream : Stream}
      → Delivers stream rest
      → Delivers (chunk value stream) (value ++ rest)

-- What the loop gives from `size` bytes on.
abbrev ReadsFrom : List ℕ → Stream → List ℕ → Type 0
ReadsFrom chunks stream bytes =
    (rest : List ℕ) × Delivers stream rest × (bytes ≡ chunks ++ rest) × (length bytes ≤ 16384)

ReadsFrom-chunk :
    (chunks value : List ℕ) (stream : Stream) (bytes : List ℕ)
    → ReadsFrom (chunks ++ value) stream bytes
    → ReadsFrom chunks (chunk value stream) bytes
ReadsFrom-chunk chunks value stream bytes (rest, d, e, h) =
    (value ++ rest, gives d, e ∙ append_assoc chunks value rest, h)

read_body_from_sound :
    (stream : Stream) (size : ℕ) (chunks bytes : List ℕ)
    → size ≡ length chunks
    → size ≤ 16384
    → read_body_from size chunks stream ≡ ok bytes
    → ReadsFrom chunks stream bytes
unfolding read_body_from
read_body_from_sound done size chunks bytes e h r =
    let same : bytes ≡ chunks = ground arith in
    ([], ends, same ∙ sym (append-nil chunks), rw same (omega arith))
read_body_from_sound broken size chunks bytes e h r = cc
read_body_from_sound (chunk value stream) size chunks bytes e h r =
    let total : size + length value ≡ length (chunks ++ value) =
      omega (arith, length-append chunks value) in
    ReadsFrom-chunk chunks value stream bytes (
      read_body_from_sound stream (size + length value) (chunks ++ value) bytes total (ground arith)
        (ground arith))

read_body_from_complete :
    {stream : Stream} {rest : List ℕ} (size : ℕ) (chunks : List ℕ)
    → Delivers stream rest
    → size + length rest ≤ 16384
    → read_body_from size chunks stream ≡ ok (chunks ++ rest)
unfolding read_body_from
read_body_from_complete size chunks ends h = rw append-nil
read_body_from_complete size chunks (gives {value} {rest} {stream} d) h =
    let more : size + length value + length rest ≤ 16384 =
      omega (arith, length-append value rest) in
    ground (
      arith,
      read_body_from_complete (size + length value) (chunks ++ value) d more,
      append_assoc chunks value rest,
    )

-- The reader accepts exactly the bodies that end and have at most 16384 bytes, and returns all
-- their bytes in order.
pub read_body_iff :
    (stream : Stream) (bytes : List ℕ)
    → (read_body stream ≡ ok bytes) ↔ (Delivers stream bytes × (length bytes ≤ 16384))
unfolding read_body
read_body_iff stream bytes = (sound, λ h. read_body_from_complete 0 [] h.0 (omega (arith, h.1)))
  where
    sound : read_body_from 0 [] stream ≡ ok bytes → Delivers stream bytes × (length bytes ≤ 16384)
    sound r = whole (read_body_from_sound stream 0 [] bytes refl (omega arith) r)
      where
        whole : ReadsFrom [] stream bytes → Delivers stream bytes × (length bytes ≤ 16384)
        whole (rest, d, e, h) = (subst (Delivers stream) (sym e) d, h)
