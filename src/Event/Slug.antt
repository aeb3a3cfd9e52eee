-- ===== src/Event/Slug.antt =====
-- shared/domain-events.ts, `slugify`: from a workspace name to the key of its channels.
use bahn_project_manager.Prelude.{
  ℕ, ◌≡◌, refl, ◌⊎◌, inl, inr, Bool, true, false, not, ◌&&◌, [], ◌∷◌, arith, All, filter,
  if◌then◌else◌, nat_beq, leb, Text, is_word_char, is_slug_char, Bool-cases,
}
use bahn_project_manager.Runtime.{Runtime, RuntimeLaws}

-- `.replace(/ß/g, "ss")`.
expand_eszett : Text → Text
expand_eszett [] = []
expand_eszett (c ∷ s) =
    let rest = expand_eszett s in if nat_beq c 223 then b's' ∷ b's' ∷ rest else c ∷ rest

-- `.replace(/[\u0300-\u036f]/g, "")`.
strip_marks : Text → Text
strip_marks s = filter (λ c. not (leb 768 c && leb c 879)) s

-- `.replace(/[^a-z0-9]+/g, "-")`; the flag is set inside a run that has its dash.
collapse : Bool → Text → Text
collapse in_run [] = []
collapse in_run (c ∷ s) =
    let word = c ∷ collapse false s in
    let run = collapse true s in if is_word_char c then word else if in_run then run else b'-' ∷ run

-- `.replace(/^-+|-+$/g, "")`, its two halves.
trim_start : Text → Text
trim_start [] = []
trim_start (c ∷ s) = if nat_beq c b'-' then trim_start s else c ∷ s

before_trimmed : ℕ → Text → Text
before_trimmed c [] = if nat_beq c b'-' then [] else c ∷ []
before_trimmed c (d ∷ s) = c ∷ d ∷ s

trim_end : Text → Text
unfolding before_trimmed
trim_end [] = []
trim_end (c ∷ s) = before_trimmed c (trim_end s)

unfoldable pub slugify : Runtime → Text → Text
unfolding expand_eszett strip_marks collapse trim_start trim_end
slugify rt value =
    trim_end
      (trim_start (collapse false (rt.to_lower (strip_marks (rt.nfkd (expand_eszett value))))))

-- Words of `[a-z0-9]` with single dashes between them; the flag says that a word stands before.
abbrev pub Words : Bool → Text → Type 0
Words after_word [] = after_word ≡ true
Words after_word (c ∷ s) =
    ((is_word_char c ≡ true) × Words true s) ⊎ ((c ≡ b'-') × (after_word ≡ true) × Words false s)

abbrev pub IsSlug : Text → Type 0
IsSlug s = (s ≡ []) ⊎ Words false s

-- The same, where the text may also end behind a dash.
abbrev Prefix : Bool → Text → Type 0
Prefix after_word [] = Unit
Prefix after_word (c ∷ s) =
    ((is_word_char c ≡ true) × Prefix true s) ⊎ ((c ≡ b'-') × (after_word ≡ true) × Prefix false s)

collapse-Prefix : (in_run : Bool) (s : Text) → Prefix (not in_run) (collapse in_run s)
unfolding collapse
collapse-Prefix in_run [] = tt
collapse-Prefix true (c ∷ s) = elim (Bool-cases (is_word_char c)) [
  | inl e ↦ rw e (inl (e, collapse-Prefix false s))
  | inr e ↦ rw e (collapse-Prefix true s)
]
collapse-Prefix false (c ∷ s) = elim (Bool-cases (is_word_char c)) [
  | inl e ↦ rw e (inl (e, collapse-Prefix false s))
  | inr e ↦ rw e (inr (refl, refl, collapse-Prefix true s))
]

trim_start-eq_self : (s : Text) → Prefix false s → trim_start s ≡ s
unfolding trim_start
trim_start-eq_self [] h = refl
trim_start-eq_self (c ∷ s) h = ground arith

trim_start-Prefix : (s : Text) → Prefix true s → Prefix false (trim_start s)
unfolding trim_start
trim_start-Prefix [] h = tt
trim_start-Prefix (c ∷ s) (inl (w, h)) = rw (trim_start-eq_self (c ∷ s) (inl (w, h))) (inl (w, h))
trim_start-Prefix (c ∷ s) (inr (d, _, h)) =
    let e : trim_start (c ∷ s) ≡ s = rw (d, trim_start-eq_self s h) in rw e h

before_trimmed-word :
    (b : Bool) (c : ℕ) (t : Text)
    → is_word_char c ≡ true
    → (t ≡ []) ⊎ Words true t
    → Words b (before_trimmed c t)
unfolding before_trimmed
before_trimmed-word b c [] w h = ground arith
before_trimmed-word b c (d ∷ t) w h = ground arith

before_trimmed-dash :
    (t : Text)
    → (t ≡ []) ⊎ Words false t
    → (before_trimmed b'-' t ≡ []) ⊎ Words true (before_trimmed b'-' t)
unfolding before_trimmed
before_trimmed-dash [] h = inl refl
before_trimmed-dash (d ∷ t) h = ground arith

trim_end-Words : (b : Bool) (s : Text) → Prefix b s → (trim_end s ≡ []) ⊎ Words b (trim_end s)
unfolding trim_end
trim_end-Words b [] h = inl refl
trim_end-Words b (c ∷ s) (inl (w, h)) =
    inr (before_trimmed-word b c (trim_end s) w (trim_end-Words true s h))
trim_end-Words b (c ∷ s) (inr (d, a, h)) =
    rw (d, a) (before_trimmed-dash (trim_end s) (trim_end-Words false s h))

-- Whatever the name and the runtime, a slug is empty, or words of `[a-z0-9]` joined by single
-- dashes.
pub slugify-IsSlug : (rt : Runtime) (value : Text) → IsSlug (slugify rt value)
unfolding slugify
slugify-IsSlug rt value =
    let s = rt.to_lower (strip_marks (rt.nfkd (expand_eszett value))) in
    trim_end-Words false (trim_start (collapse false s))
      (trim_start-Prefix (collapse false s) (collapse-Prefix false s))

pub Words-slug_char : (b : Bool) (s : Text) → Words b s → All (λ c. is_slug_char c ≡ true) s
Words-slug_char b [] h = tt
Words-slug_char b (c ∷ s) (inl (w, h)) = (rw w, Words-slug_char true s h)
Words-slug_char b (c ∷ s) (inr (d, _, h)) = (rw d, Words-slug_char false s h)

expand_eszett-eq_self : (s : Text) → All (λ c. is_slug_char c ≡ true) s → expand_eszett s ≡ s
unfolding expand_eszett
expand_eszett-eq_self [] h = refl
expand_eszett-eq_self (c ∷ s) (p, h) = ground (arith, expand_eszett-eq_self s h)

strip_marks-eq_self : (s : Text) → All (λ c. is_slug_char c ≡ true) s → strip_marks s ≡ s
unfolding strip_marks
strip_marks-eq_self [] h = refl
strip_marks-eq_self (c ∷ s) (p, h) = ground (arith, strip_marks-eq_self s h)

collapse-eq_self : (b : Bool) (s : Text) → Words b s → collapse (not b) s ≡ s
unfolding collapse
collapse-eq_self b [] h = refl
collapse-eq_self b (c ∷ s) (inl (w, h)) = ground (arith, collapse-eq_self true s h)
collapse-eq_self b (c ∷ s) (inr (d, a, h)) = ground (arith, collapse-eq_self false s h)

before_trimmed-eq_cons :
    (b : Bool) (c : ℕ) (t : Text) → Words b (c ∷ t) → before_trimmed c t ≡ c ∷ t
unfolding before_trimmed
before_trimmed-eq_cons b c [] (inl (w, h)) = ground arith
before_trimmed-eq_cons b c [] (inr (d, a, h)) = cc
before_trimmed-eq_cons b c (x ∷ t) h = refl

trim_end-eq_self : (b : Bool) (s : Text) → Words b s → trim_end s ≡ s
unfolding trim_end
trim_end-eq_self b [] h = refl
trim_end-eq_self b (c ∷ s) (inl (w, h)) =
    rw (trim_end-eq_self true s h) (before_trimmed-eq_cons b c s (inl (w, h)))
trim_end-eq_self b (c ∷ s) (inr (d, a, h)) =
    rw (trim_end-eq_self false s h) (before_trimmed-eq_cons b c s (inr (d, a, h)))

collapse-eq_self_start : (s : Text) → Words false s → collapse false s ≡ s
unfolding collapse
collapse-eq_self_start [] h = refl
collapse-eq_self_start (c ∷ s) (inl (w, h)) = ground (arith, collapse-eq_self true s h)
collapse-eq_self_start (c ∷ s) (inr (d, a, h)) = cc

Words-Prefix : (b : Bool) (s : Text) → Words b s → Prefix b s
Words-Prefix b [] h = tt
Words-Prefix b (c ∷ s) (inl (w, h)) = inl (w, Words-Prefix true s h)
Words-Prefix b (c ∷ s) (inr (d, a, h)) = inr (d, a, Words-Prefix false s h)

slugify-eq_self : (rt : Runtime) → RuntimeLaws rt → (s : Text) → Words false s → slugify rt s ≡ s
unfolding slugify
slugify-eq_self rt laws s h =
    let p = Words-slug_char false s h in
    rw
      (
        expand_eszett-eq_self s p,
        laws.nfkd_plain s p,
        strip_marks-eq_self s p,
        laws.to_lower_plain s p,
        collapse-eq_self_start s h,
        trim_start-eq_self s (Words-Prefix false s h),
      )
      (trim_end-eq_self false s h)

slugify_empty : (rt : Runtime) → RuntimeLaws rt → slugify rt [] ≡ []
unfolding slugify expand_eszett strip_marks collapse trim_start trim_end
slugify_empty rt laws = rw (laws.nfkd_plain [] tt, laws.to_lower_plain [] tt)

-- Where the runtime leaves plain lower-case text alone, a slug is its own slug.
pub slugify_idempotent :
    (rt : Runtime)
    → RuntimeLaws rt
    → (value : Text) → slugify rt (slugify rt value) ≡ slugify rt value
slugify_idempotent rt laws value = elim (slugify-IsSlug rt value) [
  | inl e ↦ rw e (slugify_empty rt laws)
  | inr h ↦ slugify-eq_self rt laws (slugify rt value) h
]
