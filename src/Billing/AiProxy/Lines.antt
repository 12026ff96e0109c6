-- ===== src/Billing/AiProxy/Lines.antt =====
-- What a stream that has finished has read: a line with the end marker.
use mizan_connect.Base.{
  ◌≡◌, inl, inr, refl, sym, ap, ◌∙◌, subst, Str, codes, str_eq, str_eq_sound, strip_prefix, Bool,
  true, false, Option, none, some, List, [], ◌∷◌, ◌++◌, ◌==◌, All, Any, Bool-cases, arith, exists,
  All-reverse, if◌then◌else◌,
}
use mathlib.Core.List.{reverse, reverse-append, reverse-reverse}
use mizan_connect.Billing.AiProxy.{
  AiLib, TokenUsage, Stream, Outcome, reading, finished, disconnected, after, on_line, on_payload,
  forward, terminate, ack, drop_cr, trim_end_cr, Chunk, read_stream, start,
}
use mizan_connect.Billing.AiProxy.Framing.{with_buf, on_line_empty, feed, feed_line, feed_char}
use mizan_connect.Billing.AiProxy.Cuts.{decoded, read_stream-feed}

-- The lines of a text that a newline ends; `line` is the one so far.
abbrev pub ended_lines : Str → Str → List Str
ended_lines line [] = []
ended_lines line (c ∷ s) =
    let next = ended_lines [] s in
    let longer = ended_lines (line ++ c ∷ []) s in if c == 10 then line ∷ next else longer

-- The end marker of a reply, with carriage returns behind it.
abbrev pub IsDone : Str → Type 0
IsDone line = (crs : Str) × All (λ c. c ≡ 13) crs × (line ≡ codes "data: [DONE]" ++ crs)

strip_prefix_sound : (p s r : Str) → strip_prefix p s ≡ some r → s ≡ p ++ r
unfolding strip_prefix
strip_prefix_sound [] s r h = cc h
strip_prefix_sound (d ∷ p) [] r h = absurd (cc)
strip_prefix_sound (d ∷ p) (c ∷ s) r h = ground (arith, strip_prefix_sound p s r)

drop_cr_split : (s : Str) → (crs : Str) × All (λ c. c ≡ 13) crs × (s ≡ crs ++ drop_cr s)
drop_cr_split [] = ([], tt, refl)
drop_cr_split (c ∷ s) = elim (Bool-cases (c == 13)) [
  | inl e ↦
      let (crs, all, split) = drop_cr_split s in
      let is : c ≡ 13 = ground arith in (c ∷ crs, (is, all), rw e (ap (λ t. c ∷ t) split))
  | inr e ↦ ([], tt, rw e refl)
]

trim_end_cr_split : (s : Str) → (crs : Str) × All (λ c. c ≡ 13) crs × (s ≡ trim_end_cr s ++ crs)
trim_end_cr_split s =
    let (crs, all, split) = drop_cr_split (reverse s) in
    (
      reverse crs,
      All-reverse (λ c. c ≡ 13) crs all,
      sym (reverse-reverse s) ∙ ap reverse split ∙ reverse-append crs (drop_cr (reverse s)),
    )

module _ (lib : AiLib) where
  finished_line :
      (line : Str) (o : Stream) (u : TokenUsage) (sent : List Str)
      → on_line lib line o ≡ finished u sent
      → IsDone line
  unfolding on_line
  finished_line line o u sent h = go (strip_prefix (codes "data: ") (trim_end_cr line)) refl h
    where
      branch : Str → Bool → Outcome
      branch p b = if b then disconnected o.sent else forward lib p o (ack o.acks)

      passed_on : Str → Outcome
      passed_on p = branch p (exists (λ c. c == 13) p)

      sends : (p : Str) (a : Bool × List Bool) → forward lib p o a ≡ finished u sent → IsDone line
      sends p (true, acks) k = absurd (cc)
      sends p (false, acks) k = absurd (cc)

      no_end : (p : Str) (b : Bool) → branch p b ≡ finished u sent → IsDone line
      no_end p true k = absurd (cc)
      no_end p false k = sends p (ack o.acks) k

      go :
          (p : Option Str)
          → strip_prefix (codes "data: ") (trim_end_cr line) ≡ p
          → on_payload lib o p ≡ finished u sent
          → IsDone line
      go none e k = absurd (cc)
      go (some p) e k = elim (Bool-cases (str_eq p (codes "[DONE]"))) [
        | inl is ↦
            let (crs, all, split) = trim_end_cr_split line in
            let marker = strip_prefix_sound (codes "data: ") (trim_end_cr line) p e in
            let same = str_eq_sound p (codes "[DONE]") is in
            (crs, all, split ∙ ap (λ t. t ++ crs) (marker ∙ ap (λ q. codes "data: " ++ q) same))
        | inr not_done ↦
            let rest : passed_on p ≡ finished u sent =
              subst
                (λ b. (if b then terminate lib o (ack o.acks) else passed_on p) ≡ finished u sent)
                not_done k in
            elim (Bool-cases (exists (λ c. c == 13) p)) [
              | inl cr ↦ no_end p true (subst (λ b. branch p b ≡ finished u sent) cr rest)
              | inr plain ↦ no_end p false (subst (λ b. branch p b ≡ finished u sent) plain rest)
            ]
      ]

  feed-finished :
      (s : Str) (o : Stream) (u : TokenUsage) (sent : List Str)
      → feed lib s o ≡ finished u sent
      → Any IsDone (ended_lines o.buf s)
  unfolding feed
  feed-finished [] o u sent h = absurd (cc)
  feed-finished (c ∷ s) o u sent h = elim (Bool-cases (c == 10)) [
    | inl e ↦
        let line = on_line lib o.buf (record o { buf = [] }) in
        rw e (
          line_ended (λ p k. feed-finished s p u sent k) line refl (on_line_empty lib o.buf o)
            (sym (feed_line lib c s o e) ∙ h))
    | inr e ↦ rw e (
        feed-finished s (record o { buf = o.buf ++ c ∷ [] }) u sent
          (sym (feed_char lib c s o e) ∙ h))
  ]
    where
      buf_of : Outcome → Str
      buf_of (reading p) = p.buf
      buf_of (finished v t) = []
      buf_of (disconnected t) = []

      line_ended :
          ((p : Stream) → feed lib s p ≡ finished u sent → Any IsDone (ended_lines p.buf s))
          → (x : Outcome) → on_line lib o.buf (record o { buf = [] }) ≡ x
          → after x (with_buf []) ≡ x
          → after x (feed lib s) ≡ finished u sent
          → Any IsDone (o.buf ∷ ended_lines [] s)
      line_ended again (reading p) is e k =
          inr (subst (λ b. Any IsDone (ended_lines b s)) (sym (ap buf_of e)) (again p k))
      line_ended again (finished v t) is e k =
          inl (finished_line o.buf (record o { buf = [] }) v t is)
      line_ended again (disconnected t) is e k = absurd (cc)

  -- A reply that has finished has a line with the end marker in its text.
  pub read_stream-finished :
      (acks : List Bool) (chunks : List Chunk) (u : TokenUsage) (sent : List Str)
      → read_stream lib chunks (start lib acks) ≡ finished u sent
      → Any IsDone (ended_lines [] (decoded lib chunks))
  read_stream-finished acks chunks u sent h =
      feed-finished (decoded lib chunks) (start lib acks) u sent
        (sym (read_stream-feed lib chunks (start lib acks) tt) ∙ h)
