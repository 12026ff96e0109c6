-- ===== src/Billing/AiProxy/Cuts.antt =====
-- The cuts between the chunks of a reply.
use mizan_connect.Base.{
  ◌≡◌, refl, sym, ap, ◌∙◌, subst, Str, Bool, false, List, [], ◌∷◌, ◌++◌, ◌==◌, All-append,
  Bool-cases, inl, inr,
}
use mizan_connect.Billing.AiProxy.{
  AiLib, Stream, Outcome, reading, finished, disconnected, after, on_line, Chunk, bytes, broken,
  read_stream, start,
}
use mizan_connect.Billing.AiProxy.Framing.{
  IsOpenLine, with_buf, on_line_empty, feed, feed_line, feed_char, feed-append, receive-feed,
}

-- What is left to read ends in an open line.
abbrev IsSettled : Outcome → Type 0
IsSettled (reading o) = IsOpenLine o.buf
IsSettled (finished u sent) = Unit
IsSettled (disconnected sent) = Unit

after_same :
    (x : Outcome) (f g : Stream → Outcome)
    → IsSettled x
    → ((o : Stream) → IsOpenLine o.buf → f o ≡ g o)
    → after x f ≡ after x g
after_same (reading o) f g h same = same o h
after_same (finished u s) f g h same = refl
after_same (disconnected s) f g h same = refl

after_emptied :
    (x : Outcome) (f : Stream → Outcome)
    → ((o : Stream) → IsOpenLine o.buf → IsSettled (f o))
    → IsSettled (after (after x (with_buf [])) f)
after_emptied (reading o) f h = h (record o { buf = [] }) tt
after_emptied (finished u s) f h = tt
after_emptied (disconnected s) f h = tt

module _ (lib : AiLib) where
  feed-IsSettled : (s : Str) (o : Stream) → IsOpenLine o.buf → IsSettled (feed lib s o)
  unfolding feed
  feed-IsSettled [] o h = h
  feed-IsSettled (c ∷ s) o h = elim (Bool-cases (c == 10)) [
    | inl e ↦
        subst IsSettled
          (ap (λ x. after x (feed lib s)) (on_line_empty lib o.buf o) ∙ sym (feed_line lib c s o e))
          (after_emptied (on_line lib o.buf (record o { buf = [] })) (feed lib s)
            (feed-IsSettled s))
    | inr e ↦ subst IsSettled (sym (feed_char lib c s o e)) (
        feed-IsSettled s (record o { buf = o.buf ++ c ∷ [] })
          (All-append (λ c. (c == 10) ≡ false) o.buf (c ∷ []) h (e, tt)))
  ]

  -- The text of the chunks, each decoded by itself, up to a failure of the connection.
  abbrev pub decoded : List Chunk → Str
  decoded [] = []
  decoded (broken ∷ chunks) = []
  decoded (bytes b ∷ chunks) = lib.from_utf8_lossy b ++ decoded chunks

  -- The search for newlines in the buffer, chunk by chunk, comes to reading the text of the chunks
  -- one character at a time.
  pub read_stream-feed :
      (chunks : List Chunk) (o : Stream)
      → IsOpenLine o.buf
      → read_stream lib chunks o ≡ feed lib (decoded chunks) o
  unfolding read_stream feed
  read_stream-feed [] o h = refl
  read_stream-feed (broken ∷ chunks) o h = refl
  read_stream-feed (bytes b ∷ chunks) o h =
      ap (λ x. after x (read_stream lib chunks)) (receive-feed lib (lib.from_utf8_lossy b) o h)
      ∙ after_same (feed lib (lib.from_utf8_lossy b) o) (read_stream lib chunks)
          (feed lib (decoded chunks)) (feed-IsSettled (lib.from_utf8_lossy b) o h)
          (read_stream-feed chunks)
      ∙ sym (feed-append lib (lib.from_utf8_lossy b) (decoded chunks) o)

  -- Where the network cuts a reply does not matter: two sequences of chunks with the same decoded
  -- text end alike, with the same events sent, the same usage and the same state, whenever the
  -- client goes away.
  pub read_stream_cuts :
      (acks : List Bool) (one other : List Chunk)
      → decoded one ≡ decoded other
      → read_stream lib one (start lib acks) ≡ read_stream lib other (start lib acks)
  read_stream_cuts acks one other same =
      read_stream-feed one (start lib acks) tt
      ∙ ap (λ s. feed lib s (start lib acks)) same
      ∙ sym (read_stream-feed other (start lib acks) tt)
