-- ===== src/Examples/Streams.antt =====
-- A stream that is cut inside the blank line behind its first line.
use bahn_project_manager.Prelude.{◌≡◌, refl, some, List, [], ◌∷◌, ◌++◌, Text, All, codes}
use bahn_project_manager.Sse.{feed, feed_all}
use bahn_project_manager.Sse.Chunks.{
  Parses, joined, feed-Parses, feed_all-joined, split_frame-empty,
}
use bahn_project_manager.Sse.Stream.{
  Write, retry, heartbeat, frame, frame_text, written, all_meant, PlainWrite, feed_all-written,
}

abbrev writes : List Write
writes = retry ∷ frame (some (codes "4")) (codes "hello") (codes "{}") ∷ heartbeat ∷ []

writes-Plain : All PlainWrite writes
writes-Plain =
    (tt, (((refl, tt), (refl, (refl, (refl, (refl, (refl, tt))))), (refl, (refl, tt))), (tt, tt)))

abbrev head_chunk : Text
head_chunk = codes "retry: 3000" ++ 10 ∷ []

abbrev tail_chunk : Text
tail_chunk =
    10 ∷ codes "id: 4"
    ++ 10 ∷ codes "event: hello"
    ++ 10 ∷ codes "data: {}"
    ++ 10 ∷ 10 ∷ codes ": hb"
    ++ 10 ∷ 10 ∷ []

chunks_whole : joined (head_chunk ∷ tail_chunk ∷ []) ≡ written writes
unfolding written frame_text
chunks_whole = refl

feed_all-written_example : feed_all (head_chunk ∷ tail_chunk ∷ []) [] ≡ (all_meant writes, [])
feed_all-written_example =
    feed_all-written writes (head_chunk ∷ tail_chunk ∷ []) writes-Plain chunks_whole

feed_all-joined_example :
    feed_all (head_chunk ∷ tail_chunk ∷ []) [] ≡ feed (joined (head_chunk ∷ tail_chunk ∷ [])) []
feed_all-joined_example = feed_all-joined (head_chunk ∷ tail_chunk ∷ []) [] split_frame-empty

feed-Parses_example : Parses (head_chunk ++ tail_chunk) (feed tail_chunk head_chunk)
feed-Parses_example = feed-Parses tail_chunk head_chunk
