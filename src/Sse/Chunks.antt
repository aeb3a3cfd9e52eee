-- ===== src/Sse/Chunks.antt =====
-- shared/sse.ts: the loop of `feed` on a whole text and on its chunks.
use bahn_project_manager.Prelude.{
  ℕ, zero, suc, ◌<◌, ◌≤◌, ◌≡◌, refl, sym, ap, ◌∙◌, inl, inr, true, false, Option, none, some, List,
  [], ◌∷◌, ◌++◌, length, if◌then◌else◌, nat_beq, Text, some-injective, Bool-cases, Option-cases,
  arith,
}
use mathlib.Core.List.{append_assoc, append-nil}
use bahn_project_manager.Sse.{
  SseFrame, behind_lf, newline, blank_line, split_frame, frame_of, emit, after_search, take_frames,
  feed, append_frames, feed_all,
}

-- How many line feeds a text has.
abbrev lf : Text → ℕ
lf [] = 0
lf (c ∷ s) = if nat_beq c 10 then suc (lf s) else lf s

behind_lf_lem :
    (s t r : Text)
    → behind_lf s ≡ some r
    → (behind_lf (s ++ t) ≡ some (r ++ t)) × (lf s ≡ suc (lf r)) × (length r < length s)
behind_lf_lem [] t r h = absurd (cc h)
behind_lf_lem (c ∷ s) t r h = elim (Bool-cases (nat_beq c 10)) [
  | inl b ↦
      let e = some-injective s r (rw b at h) in
      (
        rw b (ap (λ u. some (u ++ t)) e),
        rw b (ap (λ u. suc (lf u)) e),
        ground (arith, ap (λ (u : Text). length u) e),
      )
  | inr b ↦ absurd (cc (rw b at h))
]

cr_not_lf : (c : ℕ) → nat_beq c 13 ≡ true → nat_beq c 10 ≡ false
cr_not_lf c b = ground arith

newline_lem :
    (s t r : Text)
    → newline s ≡ some r
    → (newline (s ++ t) ≡ some (r ++ t)) × (lf s ≡ suc (lf r)) × (length r < length s)
unfolding newline
newline_lem [] t r h = absurd (cc h)
newline_lem (c ∷ s) t r h = elim (Bool-cases (nat_beq c 13)) [
  | inl b ↦
      let behind = behind_lf_lem s t r (rw b at h) in
      (rw b (behind.0), rw (cr_not_lf c b) (behind.1), ground (arith, behind))
  | inr b ↦
      let behind = behind_lf_lem (c ∷ s) t r (rw b at h) in (rw b (behind.0), behind.1, behind.2)
]

behind_lf_late : (s t r : Text) → behind_lf s ≡ none → behind_lf (s ++ t) ≡ some r → s ≡ []
behind_lf_late [] t r h k = refl
behind_lf_late (c ∷ s) t r h k = elim (Bool-cases (nat_beq c 10)) [
  | inl b ↦ absurd (cc (rw b at h))
  | inr b ↦ absurd (cc (rw b at k))
]

newline_late : (s t r : Text) → newline s ≡ none → newline (s ++ t) ≡ some r → lf s ≡ 0
unfolding newline
newline_late [] t r h k = refl
newline_late (c ∷ s) t r h k = elim (Bool-cases (nat_beq c 13)) [
  | inl b ↦ rw (cr_not_lf c b) (ap lf (behind_lf_late s t r (rw b at h) (rw b at k)))
  | inr b ↦ ap lf (behind_lf_late (c ∷ s) t r (rw b at h) (rw b at k))
]

blank_line_lem :
    (s t r : Text)
    → blank_line s ≡ some r
    → (blank_line (s ++ t) ≡ some (r ++ t)) × (2 ≤ lf s) × (length r < length s)
unfolding blank_line
blank_line_lem s t r h = elim (Option-cases (newline s)) [
  | inl e ↦ absurd (cc (rw e at h))
  | inr (u, e) ↦
      let first = newline_lem s t u e in
      let second = newline_lem u t r (rw e at h) in
      (
        rw (first.0) (second.0),
        ground (arith, first.1, second.1),
        ground (arith, first.2, second.2),
      )
]

blank_line_late : (s t r : Text) → blank_line s ≡ none → blank_line (s ++ t) ≡ some r → lf s ≤ 1
unfolding blank_line
blank_line_late s t r h k = elim (Option-cases (newline s)) [
  | inl e ↦ elim (Option-cases (newline (s ++ t))) [
    | inl f ↦ absurd (cc (rw f at k))
    | inr (v, f) ↦ ground (arith, newline_late s t v e f)
  ]
  | inr (u, e) ↦
      let first = newline_lem s t u e in
      ground (arith, first.1, newline_late u t r (rw e at h) (rw (first.0) at k))
]

split_frame_lem :
    (s t : Text) (p : Text × Text)
    → split_frame s ≡ some p
    → (split_frame (s ++ t) ≡ some (p.0, p.1 ++ t)) × (2 ≤ lf s) × (length (p.1) < length s)
unfolding split_frame
split_frame_lem [] t p h = absurd (cc h)
split_frame_lem (c ∷ s) t p h = elim (Option-cases (blank_line (c ∷ s))) [
  | inr (r, e) ↦
      let here = blank_line_lem (c ∷ s) t r e in
      let same : ([], r) ≡ p = some-injective ([], r) p (rw e at h) in
      (
        rw (here.0) (ap (λ (q : Text × Text). some (q.0, q.1 ++ t)) same),
        here.1,
        ground (arith, here.2, ap (λ (q : Text × Text). length (q.1)) same),
      )
  | inl e ↦ elim (Option-cases (split_frame s)) [
    | inl f ↦ absurd (cc (rw (e, f) at h))
    | inr (q, f) ↦
        let later = split_frame_lem s t q f in
        let same : (c ∷ q.0, q.1) ≡ p = some-injective (c ∷ q.0, q.1) p (rw (e, f) at h) in
        elim (Option-cases (blank_line (c ∷ s ++ t))) [
          | inl g ↦ (
            rw (g, later.0) (ap (λ (q : Text × Text). some (q.0, q.1 ++ t)) same),
            ground (arith, later.1),
            ground (arith, later.2, ap (λ (q : Text × Text). length (q.1)) same),
          )
          | inr (v, g) ↦ absurd (ground (arith, later.1, blank_line_late (c ∷ s) t v e g))
        ]
  ]
]

pub split_frame-empty : split_frame [] ≡ none
unfolding split_frame
split_frame-empty = refl

-- A text parsed: the frames of what stands before each blank line, and the rest without one.
pub data Parses : Text → List SseFrame × Text → Type 0 where
  done : (s : Text) → split_frame s ≡ none → Parses s ([], s)
  next :
      (s : Text) (p : Text × Text) (out : List SseFrame × Text)
      → split_frame s ≡ some p
      → Parses (p.1) out
      → Parses s (emit (frame_of (p.0)) out)

pub take_frames_stop : (n : ℕ) (s : Text) → split_frame s ≡ none → take_frames n s ≡ ([], s)
unfolding take_frames after_search
take_frames_stop zero s e = refl
take_frames_stop (suc n) s e = ap (after_search s (take_frames n)) e

take_frames_step :
    (n : ℕ) (s : Text) (p : Text × Text)
    → split_frame s ≡ some p
    → take_frames (suc n) s ≡ emit (frame_of (p.0)) (take_frames n (p.1))
unfolding take_frames after_search
take_frames_step n s p e = ap (after_search s (take_frames n)) e

take_frames-Parses : (n : ℕ) (s : Text) → length s ≤ n → Parses s (take_frames n s)
take_frames-Parses zero [] h =
    rw (take_frames_stop 0 [] split_frame-empty) (done [] split_frame-empty)
take_frames-Parses zero (c ∷ s) h = absurd (omega arith)
take_frames-Parses (suc n) s h = elim (Option-cases (split_frame s)) [
  | inl e ↦ rw (take_frames_stop (suc n) s e) (done s e)
  | inr (p, e) ↦
      let less = (split_frame_lem s [] p e).2 in
      rw (take_frames_step n s p e)
        (next s p (take_frames n (p.1)) e (take_frames-Parses n (p.1) (omega arith)))
]

-- A chunk that arrives is parsed to the end: every frame that is complete in the buffer is given
-- out, in order, and what is left in the buffer holds no complete frame.
pub feed-Parses : (chunk buf : Text) → Parses (buf ++ chunk) (feed chunk buf)
unfolding feed
feed-Parses chunk buf = take_frames-Parses (length (buf ++ chunk)) (buf ++ chunk) (omega arith)

Parses-rest : (s : Text) (out : List SseFrame × Text) → Parses s out → split_frame (out.1) ≡ none
Parses-rest s _ (done _ e) = e
Parses-rest s _ (next _ p out e parses) = elim (Option-cases (frame_of (p.0))) [
  | inl f ↦ rw f (Parses-rest (p.1) out parses)
  | inr (g, f) ↦ rw f (Parses-rest (p.1) out parses)
]

-- Whatever bound the loop gets that is large enough, it gives the same.
take_frames_enough :
    (n m : ℕ) (s : Text) → length s ≤ n → length s ≤ m → take_frames n s ≡ take_frames m s
take_frames_enough n m [] h k =
    take_frames_stop n [] split_frame-empty ∙ sym (take_frames_stop m [] split_frame-empty)
take_frames_enough zero m (c ∷ s) h k = absurd (omega arith)
take_frames_enough (suc n) zero (c ∷ s) h k = absurd (omega arith)
take_frames_enough (suc n) (suc m) (c ∷ s) h k = elim (Option-cases (split_frame (c ∷ s))) [
  | inl e ↦ take_frames_stop (suc n) (c ∷ s) e ∙ sym (take_frames_stop (suc m) (c ∷ s) e)
  | inr (p, e) ↦
      let less = (split_frame_lem (c ∷ s) [] p e).2 in
      take_frames_step n (c ∷ s) p e
      ∙ ap (emit (frame_of (p.0))) (take_frames_enough n m (p.1) (omega arith) (omega arith))
      ∙ sym (take_frames_step m (c ∷ s) p e)
]

abbrev pub parse_all : Text → List SseFrame × Text
parse_all s = take_frames (length s) s

pub parse_all_step :
    (s : Text) (p : Text × Text)
    → split_frame s ≡ some p
    → parse_all s ≡ emit (frame_of (p.0)) (parse_all (p.1))
parse_all_step [] p e = absurd (cc (split_frame-empty, e))
parse_all_step (c ∷ s) p e =
    let less = (split_frame_lem (c ∷ s) [] p e).2 in
    take_frames_step (length s) (c ∷ s) p e
    ∙ ap (emit (frame_of (p.0)))
        (take_frames_enough (length s) (length (p.1)) (p.1) (ground (arith, less)) (omega arith))

emit_append :
    (o : Option SseFrame) (t : Text) (out : List SseFrame × Text)
    → emit o (append_frames (out.0) (parse_all (out.1 ++ t)))
      ≡ append_frames ((emit o out).0) (parse_all ((emit o out).1 ++ t))
emit_append none t out = refl
emit_append (some f) t out = refl

parse_all_append :
    (s t : Text) (out : List SseFrame × Text)
    → Parses s out
    → parse_all (s ++ t) ≡ append_frames (out.0) (parse_all (out.1 ++ t))
parse_all_append s t _ (done _ e) = refl
parse_all_append s t _ (next _ p out e parses) =
    let first = parse_all_step (s ++ t) (p.0, p.1 ++ t) ((split_frame_lem s t p e).0) in
    first
    ∙ ap (emit (frame_of (p.0))) (parse_all_append (p.1) t out parses)
    ∙ emit_append (frame_of (p.0)) t out

abbrev pub joined : List Text → Text
joined [] = []
joined (s ∷ ss) = s ++ joined ss

-- From a buffer without a complete frame, the chunks of a stream give the frames and the buffer that
-- their concatenation gives at once, wherever the stream is cut.
pub feed_all-joined :
    (chunks : List Text) (buf : Text)
    → split_frame buf ≡ none
    → feed_all chunks buf ≡ feed (joined chunks) buf
unfolding feed_all feed
feed_all-joined [] buf h = sym (ap parse_all (append-nil buf) ∙ take_frames_stop (length buf) buf h)
feed_all-joined (chunk ∷ chunks) buf h =
    let out = feed chunk buf in
    let parses = feed-Parses chunk buf in
    ap (append_frames (out.0))
      (feed_all-joined chunks (out.1) (Parses-rest (buf ++ chunk) out parses))
    ∙ sym (parse_all_append (buf ++ chunk) (joined chunks) out parses)
    ∙ ap parse_all (append_assoc buf chunk (joined chunks))
