-- ===== src/Sse/Stream.antt =====
-- server/realtime/gateway.ts, what it writes to a stream, read back by the parser of shared/sse.ts.
use bahn_project_manager.Prelude.{
  ℕ, ◌≡◌, ◌≢◌, refl, ap, ◌∙◌, false, ◌||◌, Option, none, some, List, [], ◌∷◌, ◌++◌, nat_beq, Text,
  codes, All, if◌then◌else◌, split_at, truthy, arith,
}
use mathlib.Core.List.{append_assoc, append-nil}
use bahn_project_manager.Sse.{
  SseFrame, newline, blank_line, keep_char, split_frame, split_lines, push_char, read_lines,
  read_line, is_skipped, join_lines, frame_fields, frame_of, emit, feed, feed_all,
}
use bahn_project_manager.Sse.Chunks.{
  parse_all, parse_all_step, take_frames_stop, joined, feed_all-joined, split_frame-empty,
}

-- What the gateway writes: the retry line, heartbeats, and frames with an id, an event and the text
-- that `JSON.stringify` gives for the data.
pub data Write : Type 0 where
  retry : Write
  heartbeat : Write
  frame : Option Text → Text → Text → Write

-- Lines, each with its line feed, and the blank line behind them.
unfoldable pub frame_text : List Text → Text
frame_text [] = 10 ∷ []
frame_text (line ∷ lines) = line ++ 10 ∷ frame_text lines

abbrev pub id_lines : Option Text → List Text
id_lines none = []
id_lines (some []) = []
id_lines (some (c ∷ s)) = (codes "id: " ++ c ∷ s) ∷ []

abbrev pub lines_of : Write → List Text
lines_of retry = codes "retry: 3000" ∷ []
lines_of heartbeat = codes ": hb" ∷ []
lines_of (frame id event json) =
    id_lines id ++ (codes "event: " ++ event) ∷ (codes "data: " ++ json) ∷ []

unfoldable pub written : List Write → Text
unfolding frame_text
written [] = []
written (w ∷ ws) = frame_text (lines_of w) ++ written ws

-- The frame that a write means to the client.
abbrev pub meant : Write → Option SseFrame
meant retry = none
meant heartbeat = some (record { event = codes "comment"; data_text = []; id = none })
meant (frame id event json) =
    some (record { event = event; data_text = json; id = if truthy id then id else none })

abbrev pub all_meant : List Write → List SseFrame
all_meant [] = []
all_meant (w ∷ ws) = (emit (meant w) (all_meant ws, [])).0

-- A text without line breaks, as JSON and the names of events are.
abbrev pub Plain : Text → Type 0
Plain s = All (λ c. (nat_beq c 10 || nat_beq c 13) ≡ false) s

abbrev pub PlainWrite : Write → Type 0
PlainWrite retry = Unit
PlainWrite heartbeat = Unit
PlainWrite (frame none event json) = Plain event × Plain json
PlainWrite (frame (some id) event json) = Plain id × Plain event × Plain json

abbrev IsLine : Text → Type 0
IsLine [] = ⊥
IsLine (c ∷ s) = Plain (c ∷ s)

abbrev keep_text : Text → Option (Text × Text) → Option (Text × Text)
keep_text [] o = o
keep_text (c ∷ s) o = keep_char c (keep_text s o)

keep_text-some : (s a b : Text) → keep_text s (some (a, b)) ≡ some (s ++ a, b)
keep_text-some [] a b = refl
keep_text-some (c ∷ s) a b = ap (keep_char c) (keep_text-some s a b)

plain_units :
    (c : ℕ)
    → (nat_beq c 10 || nat_beq c 13) ≡ false
    → (nat_beq c 10 ≡ false) × (nat_beq c 13 ≡ false)
plain_units c h = ground arith

newline-Plain : (c : ℕ) (s : Text) → (nat_beq c 10 || nat_beq c 13) ≡ false → newline (c ∷ s) ≡ none
unfolding newline
newline-Plain c s h = let (a, b) = plain_units c h in rw (b, a) refl

split_frame-Plain : (s u : Text) → Plain s → split_frame (s ++ u) ≡ keep_text s (split_frame u)
unfolding split_frame blank_line
split_frame-Plain [] u h = refl
split_frame-Plain (c ∷ s) u (q, h) =
    rw (newline-Plain c (s ++ u) q) (ap (keep_char c) (split_frame-Plain s u h))

split_frame-lf :
    (c : ℕ) (u : Text)
    → (nat_beq c 10 || nat_beq c 13) ≡ false
    → split_frame (10 ∷ c ∷ u) ≡ keep_char 10 (split_frame (c ∷ u))
unfolding split_frame blank_line newline
split_frame-lf c u h = let (a, b) = plain_units c h in rw (b, a) refl

split_frame-blank : (t : Text) → split_frame (10 ∷ 10 ∷ t) ≡ some ([], t)
unfolding split_frame blank_line newline
split_frame-blank t = refl

split_frame-frame_text :
    (line : Text) (lines : List Text) (t : Text)
    → All IsLine (line ∷ lines)
    → split_frame (frame_text (line ∷ lines) ++ t) ≡ some (join_lines (line ∷ lines), t)
unfolding frame_text join_lines
split_frame-frame_text [] lines t h = absurd (h.0)
split_frame-frame_text (c ∷ s) [] t (h, _) =
    ap split_frame (append_assoc (c ∷ s) (10 ∷ 10 ∷ []) t)
    ∙ split_frame-Plain (c ∷ s) (10 ∷ 10 ∷ t) h
    ∙ ap (keep_text (c ∷ s)) (split_frame-blank t)
    ∙ keep_text-some (c ∷ s) [] t
    ∙ ap (λ (r : Text). some (r, t)) (append-nil (c ∷ s))
split_frame-frame_text (c ∷ s) ([] ∷ lines) t h = absurd (h.1.0)
split_frame-frame_text (c ∷ s) ((d ∷ u) ∷ lines) t (h, (k, hs)) =
    let next = frame_text ((d ∷ u) ∷ lines) in
    ap split_frame (append_assoc (c ∷ s) (10 ∷ next) t)
    ∙ split_frame-Plain (c ∷ s) (10 ∷ next ++ t) h
    ∙ ap (keep_text (c ∷ s)) (
        split_frame-lf d (u ++ 10 ∷ frame_text lines ++ t) (k.0)
        ∙ ap (keep_char 10) (split_frame-frame_text (d ∷ u) lines t (k, hs)))
    ∙ keep_text-some (c ∷ s) (10 ∷ join_lines ((d ∷ u) ∷ lines)) t

split_lines-line : (s u : Text) → Plain s → split_lines (s ++ 10 ∷ u) ≡ s ∷ split_lines u
unfolding split_lines
split_lines-line [] u h = refl
split_lines-line (c ∷ s) u (q, h) =
    let (a, b) = plain_units c q in rw (a, b) (ap (push_char c) (split_lines-line s u h))

split_lines-last : (s : Text) → Plain s → split_lines s ≡ s ∷ []
unfolding split_lines
split_lines-last [] h = refl
split_lines-last (c ∷ s) (q, h) =
    let (a, b) = plain_units c q in rw (a, b) (ap (push_char c) (split_lines-last s h))

line-Plain : (s : Text) → IsLine s → Plain s
line-Plain [] h = absurd h
line-Plain (c ∷ s) h = h

split_lines-join_lines :
    (line : Text) (lines : List Text)
    → All IsLine (line ∷ lines)
    → split_lines (join_lines (line ∷ lines)) ≡ line ∷ lines
unfolding join_lines
split_lines-join_lines line [] (h, _) = split_lines-last line (line-Plain line h)
split_lines-join_lines line (l ∷ ls) (h, hs) =
    split_lines-line line (join_lines (l ∷ ls)) (line-Plain line h)
    ∙ ap (λ rest. line ∷ rest) (split_lines-join_lines l ls hs)

event-IsLine : (event : Text) → Plain event → IsLine (codes "event: " ++ event)
event-IsLine event h = (refl, (refl, (refl, (refl, (refl, (refl, (refl, h)))))))

json-IsLine : (json : Text) → Plain json → IsLine (codes "data: " ++ json)
json-IsLine json h = (refl, (refl, (refl, (refl, (refl, (refl, h))))))

id-IsLine : (id : Text) → Plain id → IsLine (codes "id: " ++ id)
id-IsLine id h = (refl, (refl, (refl, (refl, h))))

lines_of-Lines : (w : Write) → PlainWrite w → All IsLine (lines_of w)
lines_of-Lines retry h =
    ((refl, (refl, (refl, (refl, (refl, (refl, (refl, (refl, (refl, (refl, (refl, tt))))))))))), tt)
lines_of-Lines heartbeat h = ((refl, (refl, (refl, (refl, tt)))), tt)
lines_of-Lines (frame none event json) (h, k) = (event-IsLine event h, (json-IsLine json k, tt))
lines_of-Lines (frame (some []) event json) h =
    (event-IsLine event (h.1), (json-IsLine json (h.2), tt))
lines_of-Lines (frame (some (c ∷ s)) event json) h =
    (id-IsLine (c ∷ s) (h.0), (event-IsLine event (h.1), (json-IsLine json (h.2), tt)))

read_back :
    (w : Write)
    → frame_fields
        (lines_of w)
        (read_lines (lines_of w) (record { event = codes "message"; id = none; data_lines = [] }))
      ≡ meant w
unfolding read_lines read_line is_skipped split_at join_lines
read_back retry = refl
read_back heartbeat = refl
read_back (frame none event json) = refl
read_back (frame (some []) event json) = refl
read_back (frame (some (c ∷ s)) event json) = refl

frame_of-lines :
    (line : Text) (lines : List Text)
    → All IsLine (line ∷ lines)
    → frame_of (join_lines (line ∷ lines))
      ≡ frame_fields (line ∷ lines) (
          read_lines
            (line ∷ lines)
            (record { event = codes "message"; id = none; data_lines = [] }))
unfolding frame_of
frame_of-lines line lines h =
    ap
      (λ ls.
        frame_fields ls
          (read_lines ls (record { event = codes "message"; id = none; data_lines = [] })))
      (split_lines-join_lines line lines h)

parse_frame_text :
    (ls : List Text) (t : Text)
    → ls ≢ []
    → All IsLine ls
    → parse_all (frame_text ls ++ t)
      ≡ emit
          (frame_fields ls
            (read_lines ls (record { event = codes "message"; id = none; data_lines = [] })))
          (parse_all t)
parse_frame_text [] t n h = absurd (n refl)
parse_frame_text (line ∷ lines) t n h =
    parse_all_step (frame_text (line ∷ lines) ++ t) (join_lines (line ∷ lines), t)
      (split_frame-frame_text line lines t h)
    ∙ ap (λ o. emit o (parse_all t)) (frame_of-lines line lines h)

lines_of-nonempty : (w : Write) → lines_of w ≢ []
lines_of-nonempty retry e = cc e
lines_of-nonempty heartbeat e = cc e
lines_of-nonempty (frame none event json) e = cc e
lines_of-nonempty (frame (some []) event json) e = cc e
lines_of-nonempty (frame (some (c ∷ s)) event json) e = cc e

emit_meant :
    (o : Option SseFrame) (fs : List SseFrame) → emit o (fs, []) ≡ ((emit o (fs, [])).0, [])
emit_meant none fs = refl
emit_meant (some f) fs = refl

parse_written : (ws : List Write) → All PlainWrite ws → parse_all (written ws) ≡ (all_meant ws, [])
unfolding written
parse_written [] h = take_frames_stop 0 [] split_frame-empty
parse_written (w ∷ ws) (h, hs) =
    parse_frame_text (lines_of w) (written ws) (lines_of-nonempty w) (lines_of-Lines w h)
    ∙ ap (λ o. emit o (parse_all (written ws))) (read_back w)
    ∙ ap (emit (meant w)) (parse_written ws hs)
    ∙ emit_meant (meant w) (all_meant ws)

-- What the gateway writes, its ids, events and data without line breaks, reaches the client as the
-- frames that were meant, in order, and nothing is left over, wherever the stream is cut.
pub feed_all-written :
    (ws : List Write) (chunks : List Text)
    → All PlainWrite ws
    → joined chunks ≡ written ws
    → feed_all chunks [] ≡ (all_meant ws, [])
unfolding feed
feed_all-written ws chunks h cut =
    feed_all-joined chunks [] split_frame-empty ∙ ap parse_all cut ∙ parse_written ws h
