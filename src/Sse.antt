-- ===== src/Sse.antt =====
-- shared/sse.ts: the incremental parser of the event stream, and the lines that
-- server/realtime/gateway.ts writes for it.
pub mod Chunks
pub mod Stream
use bahn_project_manager.Prelude.{
  ℕ, zero, suc, Bool, true, false, not, ◌&&◌, ◌||◌, Option, none, some, List, [], ◌∷◌, ◌++◌, length,
  if◌then◌else◌, nat_beq, Text, text_beq, codes, split_at, truthy,
}

pub record SseFrame : Type 0 where
  pub event : Text
  pub data_text : Text
  pub id : Option Text

abbrev pub starts_lf : Text → Bool
starts_lf [] = false
starts_lf (c ∷ s) = nat_beq c 10

abbrev pub behind_lf : Text → Option Text
behind_lf [] = none
behind_lf (c ∷ s) = if nat_beq c 10 then some s else none

-- What stands behind `^\r?\n`.
unfoldable pub newline : Text → Option Text
newline [] = none
newline (c ∷ s) = if nat_beq c 13 then behind_lf s else behind_lf (c ∷ s)

abbrev pub newline_of : Option Text → Option Text
newline_of none = none
newline_of (some s) = newline s

-- What stands behind `^\r?\n\r?\n`.
unfoldable pub blank_line : Text → Option Text
unfolding newline
blank_line s = newline_of (newline s)

abbrev pub keep_char : ℕ → Option (Text × Text) → Option (Text × Text)
keep_char c none = none
keep_char c (some (raw, rest)) = some (c ∷ raw, rest)

abbrev pub found_at : Option Text → Option (Text × Text) → Option (Text × Text)
found_at none later = later
found_at (some rest) later = some ([], rest)

-- The text up to the first `\r?\n\r?\n` and the text behind it.
unfoldable pub split_frame : Text → Option (Text × Text)
unfolding blank_line
split_frame [] = none
split_frame (c ∷ s) = found_at (blank_line (c ∷ s)) (keep_char c (split_frame s))

abbrev pub push_char : ℕ → List Text → List Text
push_char c [] = (c ∷ []) ∷ []
push_char c (line ∷ lines) = (c ∷ line) ∷ lines

-- `raw.split(/\r?\n/)`.
unfoldable pub split_lines : Text → List Text
split_lines [] = [] ∷ []
split_lines (c ∷ s) =
    let rest = split_lines s in
    if nat_beq c 10
    then [] ∷ rest
    else if nat_beq c 13 && starts_lf s
    then rest
    else push_char c rest

-- What the loop over the lines has read.
pub record Fields : Type 0 where
  pub event : Text
  pub id : Option Text
  pub data_lines : List Text

abbrev pub set_field : Text → Text → Fields → Fields
set_field field value f =
    if text_beq field (codes "event")
    then record f { event = value }
    else if text_beq field (codes "data")
    then record f { data_lines = f.data_lines ++ value ∷ [] }
    else if text_beq field (codes "id")
    then record f { id = some value }
    else f

-- `.replace(/^ /, "")`.
abbrev pub strip_space : Text → Text
strip_space [] = []
strip_space (c ∷ s) = if nat_beq c b' ' then s else c ∷ s

abbrev pub set_split : Text → Option (Text × Text) → Fields → Fields
set_split line none f = set_field line [] f
set_split line (some (field, value)) f = set_field field (strip_space value) f

unfoldable pub is_skipped : Text → Bool
is_skipped [] = true
is_skipped (c ∷ s) = nat_beq c b':'

unfoldable pub read_line : Text → Fields → Fields
unfolding is_skipped split_at
read_line line f = if is_skipped line then f else set_split line (split_at b':' line) f

unfoldable pub read_lines : List Text → Fields → Fields
unfolding read_line
read_lines [] f = f
read_lines (line ∷ lines) f = read_lines lines (read_line line f)

-- `data.join("\n")`.
unfoldable pub join_lines : List Text → Text
join_lines [] = []
join_lines (x ∷ []) = x
join_lines (x ∷ y ∷ xs) = x ++ 10 ∷ join_lines (y ∷ xs)

abbrev pub all_skipped : List Text → Bool
all_skipped [] = true
all_skipped (line ∷ lines) = is_skipped line && all_skipped lines

abbrev pub has_data : Fields → Bool
has_data f = not (nat_beq (length f.data_lines) 0) || not (text_beq f.event (codes "message"))

abbrev pub frame_fields : List Text → Fields → Option SseFrame
frame_fields lines f =
    if has_data f
    then some (record {
      event = f.event;
      data_text = join_lines f.data_lines;
      id = if truthy f.id then f.id else none;
    })
    else if all_skipped lines
    then some (record { event = codes "comment"; data_text = []; id = none })
    else none

-- The frame of the text between two blank lines, if it is one.
unfoldable pub frame_of : Text → Option SseFrame
unfolding split_lines read_lines join_lines is_skipped
frame_of raw =
    let lines = split_lines raw in
    frame_fields lines
      (read_lines lines (record { event = codes "message"; id = none; data_lines = [] }))

abbrev pub emit : Option SseFrame → List SseFrame × Text → List SseFrame × Text
emit none out = out
emit (some f) (frames, left) = (f ∷ frames, left)

-- A round of the loop of `feed`, for what `search` finds, before the rounds that follow.
unfoldable pub after_search :
    Text → (Text → List SseFrame × Text) → Option (Text × Text) → List SseFrame × Text
unfolding frame_of
after_search buf next none = ([], buf)
after_search buf next (some (raw, rest)) = emit (frame_of raw) (next rest)

-- The loop of `feed`, with the frames that it finds and the buffer that it leaves.
unfoldable pub take_frames : ℕ → Text → List SseFrame × Text
unfolding split_frame after_search
take_frames zero buf = ([], buf)
take_frames (suc n) buf = after_search buf (take_frames n) (split_frame buf)

-- `feed`: each round of its loop shortens the buffer.
unfoldable pub feed : Text → Text → List SseFrame × Text
unfolding take_frames
feed chunk buf = take_frames (length (buf ++ chunk)) (buf ++ chunk)

abbrev pub append_frames : List SseFrame → List SseFrame × Text → List SseFrame × Text
append_frames frames (more, left) = (frames ++ more, left)

-- The loop of the client over the chunks of a response.
unfoldable pub feed_all : List Text → Text → List SseFrame × Text
unfolding feed
feed_all [] buf = ([], buf)
feed_all (chunk ∷ chunks) buf =
    append_frames ((feed chunk buf).0) (feed_all chunks ((feed chunk buf).1))
