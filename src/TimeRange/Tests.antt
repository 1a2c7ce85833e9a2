-- ===== src/TimeRange/Tests.antt =====
-- Time ranges at concrete values, with numbers and dates written as so many ones.
use celery_insights.Common.{
  ℕ, zero, suc, ◌≡◌, refl, ap, true, false, some, none, List, length, replicate, all, ◌==◌, Eq-List,
  Eq-ℕ, list_eq,
}
use celery_insights.Common.Text.{codes}
use celery_insights.TimeRange.{Texts, live, relative, hour, colon, bar, serialize, deserialize}
use celery_insights.Common.Split.{lacks}
use celery_insights.TimeRange.Roundtrip.{ReadsBack, deserialize-serialize}

abbrev ones : ℕ → List ℕ
ones n = replicate n b'1'

length-ones : (n : ℕ) → length (ones n) ≡ n
unfolding replicate
length-ones zero = refl
length-ones (suc n) = ap suc (length-ones n)

lacks-ones : (n : ℕ) → (lacks colon (ones n) ≡ true) × (lacks bar (ones n) ≡ true)
unfolding replicate all
lacks-ones zero = (refl, refl)
lacks-ones (suc n) = lacks-ones n

not_default : (n : ℕ) → (ones n == codes "default") ≡ false
unfolding replicate list_eq
not_default zero = refl
not_default (suc n) = refl

abbrev texts : Texts ℕ ℕ
texts = record {
  number_text = ones;
  finite = λ text. some (length text);
  integer = λ text. some (length text);
  iso = ones;
  date = λ text. some (length text);
  parse_range = λ text now. none;
}

texts-ReadsBack : ReadsBack texts
texts-ReadsBack = record {
  finite = λ n. ap some (length-ones n);
  integer = λ n. ap some (length-ones n);
  date = λ n. ap some (length-ones n);
  plain_number = λ n. (lacks-ones n).0;
  other_number = not_default;
  plain_date = λ n. (lacks-ones n).1;
}

-- The last three hours, saved at 5 and read back at 9.
deserialize-serialize_example :
    deserialize texts (serialize texts (live 2 5 (relative 3 hour))) 9
    ≡ some (live 9 9 (relative 3 hour))
deserialize-serialize_example =
    deserialize-serialize texts texts-ReadsBack 9 (live 2 5 (relative 3 hour))
