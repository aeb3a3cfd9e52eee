-- ===== src/Runtime.antt =====
-- What the code takes from the JavaScript runtime and does not define: string methods that depend
-- on Unicode tables, number formatting, dates, hashing and JSON. A record of functions, and the
-- documented behaviour that some theorems rely on.
use bahn_project_manager.Prelude.{
  ℕ, zero, suc, ◌≡◌, refl, ap, [], ◌∷◌, length, Text, true, All, is_slug_char,
}

pub record Runtime : Type 0 where
  -- `s.toUpperCase()`, `s.toLowerCase()`, `s.normalize("NFKD")`, `s.trim()`.
  pub to_upper : Text → Text
  pub to_lower : Text → Text
  pub nfkd : Text → Text
  pub trim : Text → Text
  -- `String(n)` and `Number(s)`, for the ids of rows.
  pub string_of : ℕ → Text
  pub number_of : Text → ℕ

-- Upper- and lower-case, decomposition and number formatting, as ECMAScript documents them.
pub record RuntimeLaws (rt : Runtime) : Type 0 where
  pub to_lower_plain : (s : Text) → All (λ c. is_slug_char c ≡ true) s → rt.to_lower s ≡ s
  pub nfkd_plain : (s : Text) → All (λ c. is_slug_char c ≡ true) s → rt.nfkd s ≡ s
  pub number_of-string_of : (n : ℕ) → rt.number_of (rt.string_of n) ≡ n

-- Numbers in unary, as a stand-in for decimals in examples.
abbrev pub tally : ℕ → Text
tally zero = []
tally (suc n) = b'1' ∷ tally n

pub length-tally : (n : ℕ) → length (tally n) ≡ n
length-tally zero = refl
length-tally (suc n) = ap suc (length-tally n)

-- A runtime without Unicode, with numbers in unary.
abbrev pub plain_runtime : Runtime
plain_runtime = record {
  to_upper = λ s. s;
  to_lower = λ s. s;
  nfkd = λ s. s;
  trim = λ s. s;
  string_of = tally;
  number_of = length;
}

pub plain_runtime-laws : RuntimeLaws plain_runtime
plain_runtime-laws = record {
  to_lower_plain = λ s h. refl;
  nfkd_plain = λ s h. refl;
  number_of-string_of = length-tally;
}
