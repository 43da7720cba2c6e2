-- ===== src/Fraud/Keys/Laws.antt =====
-- Who gets through: the configured keys, and nobody by default.
use mathlib.Core.List.{reverse, reverse-append, reverse-reverse}
use ml_monitor.Prelude.{
  ℕ, ◌≡◌, refl, ap, ◌∙◌, Bool, true, false, not, some, String, List, [], ◌∷◌, ◌++◌, map, arith,
  select, any, nat_eq, ◌⊎◌, inl, inr,
}
use ml_monitor.Fraud.Text.{Text, comma, join, AllWithout, split_on-join, lstrip, strip}
use ml_monitor.Fraud.RateLimiter.{Counter, check}
use ml_monitor.Fraud.Keys.{
  ok, granted, type_error, text_beq, is_blank, is_ascii, any_matches, load_keys, true_text,
  require_api_key,
}

any_matches-any :
    (x : Text) (keys : List Text) → any_matches x keys ≡ some true → any (text_beq x) keys ≡ true
unfolding any_matches
any_matches-any x [] h = cc
any_matches-any x (key ∷ keys) h = ground (arith, any_matches-any x keys)

module _ (is_space : ℕ → Bool) (lower : Text → Text) (key_id : Text → String) (c : Counter) where
  load_keys-nil :
      (api_keys allow : Text)
      → load_keys is_space lower api_keys allow ≡ ok []
      → text_beq (lower allow) true_text ≡ true
  unfolding load_keys
  load_keys-nil api_keys allow h = ground arith

  -- Fail closed. If the service starts with the given environment and grants a request, then either
  -- no key is configured, ALLOW_UNAUTHENTICATED says "true" in some case and the caller is
  -- "anonymous", or the request's key is one of the configured keys, the caller is the identifier
  -- of that key, and the rate limiter let it pass.
  pub require_api_key-granted :
      (api_keys allow : Text) (keys : List Text) (limit now : ℕ) (x_api_key : Text) (s : c.State)
      (id : String)
      → load_keys is_space lower api_keys allow ≡ ok keys
      → (require_api_key key_id c keys limit now x_api_key s).0 ≡ granted id
      → ((keys ≡ []) × (text_beq (lower allow) true_text ≡ true) × (id ≡ "anonymous"))
        ⊎ ((any (text_beq x_api_key) keys ≡ true)
            × (id ≡ key_id x_api_key)
            × (((check c limit now id s).0).0 ≡ true))
  unfolding require_api_key
  require_api_key-granted api_keys allow [] limit now x s id started passed =
      inl (refl, load_keys-nil api_keys allow started, ground arith)
  require_api_key-granted api_keys allow (key ∷ keys) limit now x s id started passed =
      inr (ground (arith, any_matches-any x (key ∷ keys)))

  -- With a key configured, a request whose key holds a character outside ASCII is answered neither
  -- by 401 nor by 429: the comparison raises a TypeError, and the limiter does not count it.
  require_api_key-type_error :
      (key : Text) (keys : List Text) (limit now : ℕ) (x_api_key : Text) (s : c.State)
      → is_ascii x_api_key ≡ false
      → require_api_key key_id c (key ∷ keys) limit now x_api_key s ≡ (type_error, s)
  unfolding require_api_key any_matches
  require_api_key-type_error key keys limit now x_api_key s h = rw (h, require_api_key, any_matches)

-- A text that `strip` leaves alone, is not blank and holds no comma.
module _ (is_space : ℕ → Bool) where
  abbrev pub BeginsInk : Text → Type 0
  BeginsInk [] = ⊥
  BeginsInk (x ∷ xs) = is_space x ≡ false

  abbrev pub AreTrimmed : List Text → Type 0
  AreTrimmed [] = Unit
  AreTrimmed (k ∷ ks) = BeginsInk k × BeginsInk (reverse k) × AreTrimmed ks

  lstrip_of_ink : (k : Text) → BeginsInk k → lstrip is_space k ≡ k
  unfolding lstrip
  lstrip_of_ink [] h = refl
  lstrip_of_ink (x ∷ xs) h = rw h

  strip_of_ink : (k : Text) → BeginsInk k → BeginsInk (reverse k) → strip is_space k ≡ k
  unfolding strip
  strip_of_ink k front back =
      ap (λ y. reverse (lstrip is_space (reverse y))) (lstrip_of_ink k front)
      ∙ ap reverse (lstrip_of_ink (reverse k) back)
      ∙ reverse-reverse k

  BeginsInk-append : (k r : Text) → BeginsInk k → BeginsInk (k ++ r)
  BeginsInk-append [] r h = absurd h
  BeginsInk-append (x ∷ xs) r h = h

  -- The joined text begins and ends as its first and last parts do.
  join-ink :
      (k : Text) (ks : List Text)
      → AreTrimmed (k ∷ ks)
      → BeginsInk (join comma (k ∷ ks)) × BeginsInk (reverse (join comma (k ∷ ks)))
  unfolding join
  join-ink k [] h = (h.0, h.1)
  join-ink k (k' ∷ ks) h =
      let tail : Text = join comma (k' ∷ ks) in
      let (front, back) = join-ink k' ks h.2 in
      (
        BeginsInk-append k (comma ∷ tail) h.0,
        rw (reverse-append k (comma ∷ tail), reverse-append (comma ∷ []) tail)
            (BeginsInk-append (reverse tail ++ comma ∷ []) (reverse k)
              (BeginsInk-append (reverse tail) (comma ∷ []) back)),
      )

  keep_trimmed :
      (ks : List Text)
      → AreTrimmed ks
      → select (λ k. not (is_blank k)) (map (strip is_space) ks) ≡ ks
  keep_trimmed [] h = refl
  keep_trimmed ([] ∷ ks) h = absurd h.0
  keep_trimmed ((x ∷ xs) ∷ ks) h =
      rw (strip_of_ink (x ∷ xs) h.0 h.1) (ap (◌∷◌ (x ∷ xs)) (keep_trimmed ks h.2))

  -- Keys that are not blank, have no white space at their ends and hold no comma, joined by commas,
  -- are loaded as they are, whatever ALLOW_UNAUTHENTICATED says.
  load_keys-join :
      (lower : Text → Text) (k : Text) (ks : List Text) (allow : Text)
      → AreTrimmed (k ∷ ks)
      → AllWithout comma (k ∷ ks)
      → load_keys is_space lower (join comma (k ∷ ks)) allow ≡ ok (k ∷ ks)
  unfolding load_keys
  load_keys-join lower k ks allow trimmed plain =
      let (front, back) = join-ink k ks trimmed in
      rw (
        strip_of_ink (join comma (k ∷ ks)) front back,
        split_on-join comma k ks plain,
        keep_trimmed (k ∷ ks) trimmed,
        load_keys,
      )
