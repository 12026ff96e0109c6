-- ===== src/Billing/AiProxy/Framing.antt =====
-- How the reply is cut into lines. `feed` reads it character by character; the code's search for
-- newlines in a buffer comes to the same, so the cuts between the chunks do not matter.
use mizan_connect.Base.{
  ℕ, zero, suc, ◌≤◌, ◌≡◌, refl, sym, ap, ◌∙◌, subst, Str, Bool, true, false, Option, none, some,
  List, [], ◌∷◌, ◌++◌, length, length-append, ◌==◌, All, All-append, split_once, str_eq,
  strip_prefix, codes, arith, Bool-cases, inl, inr, ==_iff, exists,
}
use mathlib.Core.List.{append-nil, append_assoc}
use mizan_connect.Billing.AiProxy.{
  AiLib, Stream, Outcome, reading, finished, disconnected, after, on_line, on_payload, forward,
  terminate, ack, drain_with, drain, receive, trim_end_cr,
}

-- A line that is not ended yet.
abbrev pub IsOpenLine : Str → Type 0
IsOpenLine = All (λ c. (c == 10) ≡ false)

after_assoc :
    (x : Outcome) (f g : Stream → Outcome) → after (after x f) g ≡ after x (λ o. after (f o) g)
after_assoc (reading o) f g = refl
after_assoc (finished u s) f g = refl
after_assoc (disconnected s) f g = refl

after_cong :
    (x : Outcome) (f g : Stream → Outcome) → ((o : Stream) → f o ≡ g o) → after x f ≡ after x g
after_cong (reading o) f g h = h o
after_cong (finished u s) f g h = refl
after_cong (disconnected s) f g h = refl

split_once_open : (b : Str) → IsOpenLine b → split_once 10 b ≡ none
unfolding split_once
split_once_open [] h = refl
split_once_open (c ∷ b) (e, h) = rw (e, split_once_open b h) refl

split_once_line : (b s : Str) → IsOpenLine b → split_once 10 (b ++ 10 ∷ s) ≡ some (b, s)
unfolding split_once
split_once_line [] s h = refl
split_once_line (c ∷ b) s (e, h) = rw (e, split_once_line b s h) refl

abbrev pub with_buf : Str → Stream → Outcome
with_buf s o = reading (record o { buf = s })

module _ (lib : AiLib) where
  -- The reference: one character at a time, `o.buf` being the line so far.
  unfoldable pub feed : Str → Stream → Outcome
  feed [] o = reading o
  feed (c ∷ s) o = elim (c == 10) [
    | true ↦ after (on_line lib o.buf (record o { buf = [] })) (feed s)
    | false ↦ feed s (record o { buf = o.buf ++ c ∷ [] })
  ]

  -- A line leaves the buffer alone.
  on_line-buf :
      (line s : Str) (o : Stream)
      → on_line lib line (record o { buf = s })
        ≡ after (on_line lib line (record o { buf = [] })) (with_buf s)
  unfolding on_line
  on_line-buf line s o = go (strip_prefix (codes "data: ") (trim_end_cr line))
    where
      sends :
          (p : Str) (a : Bool × List Bool)
          → forward lib p (record o { buf = s }) a
            ≡ after (forward lib p (record o { buf = [] }) a) (with_buf s)
      sends p (true, acks) = refl
      sends p (false, acks) = refl

      ends :
          (a : Bool × List Bool)
          → terminate lib (record o { buf = s }) a
            ≡ after (terminate lib (record o { buf = [] }) a) (with_buf s)
      ends (true, acks) = refl
      ends (false, acks) = refl

      go :
          (p : Option Str)
          → on_payload lib (record o { buf = s }) p
            ≡ after (on_payload lib (record o { buf = [] }) p) (with_buf s)
      go none = refl
      go (some p) = elim (Bool-cases (str_eq p (codes "[DONE]"))) [
        | inl e ↦ rw e (ends (ack o.acks))
        | inr e ↦ elim (Bool-cases (exists (λ c. c == 13) p)) [
          | inl cr ↦ rw (e, cr) refl
          | inr plain ↦ rw (e, plain) (sends p (ack o.acks))
        ]
      ]

  pub on_line_empty :
      (line : Str) (o : Stream)
      → after (on_line lib line (record o { buf = [] })) (with_buf [])
        ≡ on_line lib line (record o { buf = [] })
  on_line_empty line o = sym (on_line-buf line [] o)

  pub feed_line :
      (c : ℕ) (s : Str) (o : Stream)
      → (c == 10) ≡ true
      → feed (c ∷ s) o ≡ after (on_line lib o.buf (record o { buf = [] })) (feed s)
  unfolding feed
  feed_line c s o e = rw (e, feed) refl

  pub feed_char :
      (c : ℕ) (s : Str) (o : Stream)
      → (c == 10) ≡ false
      → feed (c ∷ s) o ≡ feed s (record o { buf = o.buf ++ c ∷ [] })
  unfolding feed
  feed_char c s o e = rw (e, feed) refl

  drain-feed :
      (fuel : ℕ) (b s : Str) (o : Stream)
      → IsOpenLine b
      → length s ≤ fuel
      → drain lib fuel (record o { buf = b ++ s }) ≡ feed s (record o { buf = b })
  unfolding drain feed
  drain-feed zero b [] o h n = ap (λ z. reading (record o { buf = z })) (append-nil b)
  drain-feed zero b (c ∷ s) o h n = absurd (omega arith)
  drain-feed (suc fuel) b [] o h n =
      ap (λ z. drain lib (suc fuel) (record o { buf = z })) (append-nil b)
      ∙ ap (drain_with lib (drain lib fuel) (record o { buf = b })) (split_once_open b h)
  drain-feed (suc fuel) b (c ∷ s) o h n = elim (Bool-cases (c == 10)) [
    | inl e ↦
        subst
          (λ d.
            drain lib (suc fuel) (record o { buf = b ++ d ∷ s })
            ≡ feed (d ∷ s) (record o { buf = b }))
          (sym ((==_iff c 10).0 e))
          (ap (drain_with lib (drain lib fuel) (record o { buf = b ++ 10 ∷ s }))
              (split_once_line b s h)
            ∙ ap (λ x. after x (drain lib fuel)) (on_line-buf b s o)
            ∙ after_assoc (on_line lib b (record o { buf = [] })) (with_buf s) (drain lib fuel)
            ∙ after_cong (on_line lib b (record o { buf = [] }))
                (λ o'. drain lib fuel (record o' { buf = s }))
                (λ o'. feed s (record o' { buf = [] }))
                (λ o'. drain-feed fuel [] s o' tt (omega arith))
            ∙ sym (after_assoc (on_line lib b (record o { buf = [] })) (with_buf []) (feed s))
            ∙ ap (λ x. after x (feed s)) (on_line_empty b o))
    | inr e ↦
        (ap (λ z. drain lib (suc fuel) (record o { buf = z })) (sym (append_assoc b (c ∷ []) s))
          ∙ drain-feed (suc fuel) (b ++ c ∷ []) s o
              (All-append (λ c. (c == 10) ≡ false) b (c ∷ []) h (e, tt)) (omega arith)
          ∙ sym (feed_char c s (record o { buf = b }) e))
  ]

  pub feed-append : (s t : Str) (o : Stream) → feed (s ++ t) o ≡ after (feed s o) (feed t)
  unfolding feed
  feed-append [] t o = refl
  feed-append (c ∷ s) t o = elim (Bool-cases (c == 10)) [
    | inl e ↦
        feed_line c (s ++ t) o e
        ∙ (after_cong (on_line lib o.buf (record o { buf = [] })) (feed (s ++ t))
              (λ o'. after (feed s o') (feed t)) (feed-append s t)
            ∙ sym (after_assoc (on_line lib o.buf (record o { buf = [] })) (feed s) (feed t)))
        ∙ ap (λ x. after x (feed t)) (sym (feed_line c s o e))
    | inr e ↦
        feed_char c (s ++ t) o e
        ∙ feed-append s t (record o { buf = o.buf ++ c ∷ [] })
        ∙ ap (λ x. after x (feed t)) (sym (feed_char c s o e))
  ]

  pub receive-feed : (text : Str) (o : Stream) → IsOpenLine o.buf → receive lib text o ≡ feed text o
  unfolding receive
  receive-feed text o h =
      drain-feed (length (o.buf ++ text)) o.buf text o h (omega (arith, length-append o.buf text))
