-- ===== src/Auth/Jwks/Cached.antt =====
-- auth/jwks.rs: the cache keeps its keys, and hands out no other ones.
use mizan_connect.Base.{
  ℕ, Str, str_eq, str_eq_sound, Bool, true, false, ◌≡◌, ◌≢◌, inl, inr, sym, ap, ◌∙◌, Option, none,
  some, List, [], ◌∷◌, first, Any, arith, Bool-cases,
}
use mizan_connect.Error.{AppError, ok, ok_or}
use mizan_connect.Auth.Jwks.{
  KeyLib, JwkEntry, CacheState, Fetched, document, http_error, entries, refresh, entry_for, lazily,
  find_key, has_kid, store_keys,
}

-- The requests and the hourly task, one after another: refreshes, and searches for a key.
pub data Use : Type 0 where
  refreshed : ℕ → Fetched → Use
  searched : ℕ → Fetched → Option Str → Use

abbrev pub use_one : KeyLib → Use → CacheState → CacheState
use_one lib (refreshed now answer) s = (refresh lib now answer s).1
use_one lib (searched now answer kid) s = (find_key lib now answer kid s).1

abbrev pub use_all : KeyLib → List Use → CacheState → CacheState
use_all lib [] s = s
use_all lib (u ∷ us) s = use_all lib us (use_one lib u s)

refresh_not_empty :
    (lib : KeyLib) (now : ℕ) (answer : Fetched) (s : CacheState)
    → s.keys ≢ []
    → (refresh lib now answer s).1.keys ≢ []
unfolding refresh
refresh_not_empty lib now (http_error e) s h = h
refresh_not_empty lib now (document jwks) s h = go (entries lib jwks)
  where
    go : (es : List JwkEntry) → (store_keys now es s).1.keys ≢ []
    go [] = h
    go (e ∷ es) = λ k. cc k

lazily_not_empty :
    (lib : KeyLib) (now : ℕ) (answer : Fetched) (s : CacheState)
    → s.keys ≢ []
    → (lazily lib now answer s).keys ≢ []
lazily_not_empty lib now answer s h = ground arith

-- Once the cache has a key it is never empty again, whatever the fetches bring.
pub use_all_not_empty :
    (lib : KeyLib) (us : List Use) (s : CacheState) → s.keys ≢ [] → (use_all lib us s).keys ≢ []
unfolding find_key
use_all_not_empty lib [] s h = h
use_all_not_empty lib (refreshed now answer ∷ us) s h =
    use_all_not_empty lib us (refresh lib now answer s).1 (refresh_not_empty lib now answer s h)
use_all_not_empty lib (searched now answer kid ∷ us) s h =
    use_all_not_empty lib us (lazily lib now answer s) (lazily_not_empty lib now answer s h)

pub some_ok : {A : Type 0} (e : AppError) (o : Option A) (a : A) → ok_or e o ≡ ok a → o ≡ some a
some_ok e none a h = absurd (cc)
some_ok e (some b) a h = ap some (cc h)

-- The entry that answers a key id.
abbrev pub Answers : Option Str → JwkEntry → Type 0
Answers none e = Unit
Answers (some want) e = e.kid ≡ some want

has_kid_sound : (want : Str) (e : JwkEntry) → has_kid want e ≡ true → e.kid ≡ some want
has_kid_sound want e h = go e.kid h
  where
    go :
        (o : Option Str) → (elim o [ none ↦ false | some k ↦ str_eq k want ]) ≡ true → o ≡ some want
    go none k = absurd (cc)
    go (some t) k = ap some (str_eq_sound t want k)

first_here :
    (p : JwkEntry → Bool) (x e : JwkEntry) (es : List JwkEntry)
    → p x ≡ true
    → first p (x ∷ es) ≡ some e
    → x ≡ e
first_here p x e es t h = ground arith

first_later :
    (p : JwkEntry → Bool) (x e : JwkEntry) (es : List JwkEntry)
    → p x ≡ false
    → first p (x ∷ es) ≡ some e
    → first p es ≡ some e
first_later p x e es t h = ground arith

first_answers :
    (want : Str) (es : List JwkEntry) (e : JwkEntry)
    → first (has_kid want) es ≡ some e
    → Any (λ x. x ≡ e) es × (e.kid ≡ some want)
first_answers want [] e h = absurd (cc)
first_answers want (x ∷ es) e h = elim (Bool-cases (has_kid want x)) [
  | inl t ↦
      let is = first_here (has_kid want) x e es t h in
      (inl is, ap (λ y. y.kid) (sym is) ∙ has_kid_sound want x t)
  | inr t ↦
      let (there, kid) = first_answers want es e (first_later (has_kid want) x e es t h) in
      (inr there, kid)
]

entry_for-Answers :
    (kid : Option Str) (es : List JwkEntry) (e : JwkEntry)
    → entry_for kid es ≡ some e
    → Any (λ x. x ≡ e) es × Answers kid e
entry_for-Answers none [] e h = absurd (cc)
entry_for-Answers none (x ∷ es) e h = (inl (cc h), tt)
entry_for-Answers (some want) es e h = first_answers want es e h

-- A search that succeeds returns an entry of the cache as it is then, and the one with the key id
-- that was asked for, if any; the cache is refreshed only where it was empty.
pub find_key_sound :
    (lib : KeyLib) (now : ℕ) (answer : Fetched) (kid : Option Str) (s : CacheState) (e : JwkEntry)
    → (find_key lib now answer kid s).0 ≡ ok e
    → Any (λ x. x ≡ e) (find_key lib now answer kid s).1.keys
      × Answers kid e
      × (s.keys ≢ [] → (find_key lib now answer kid s).1 ≡ s)
unfolding find_key
find_key_sound lib now answer kid s e h =
    let keys = (lazily lib now answer s).keys in
    let (there, kid_is) = entry_for-Answers kid keys e (some_ok _ (entry_for kid keys) e h) in
    (there, kid_is, λ full. ground arith)
