-- ===== src/Fraud/Keys.antt =====
-- src/ml_platform/fraud/api/security.py: the configured API keys and `require_api_key`. Texts are
-- lists of code points; white space, lower case and the hash are arguments.
pub mod Laws
mod Tests
use ml_monitor.Prelude.{
  ℕ, ◌≡◌, Bool, true, false, not, ◌&&◌, Option, none, some, String, List, [], ◌∷◌, map, select, ltb,
  ◌==◌, nat_eq, Eq, if◌then◌else◌,
}
use ml_monitor.Fraud.Text.{Text, comma, split_on, strip}
use ml_monitor.Fraud.RateLimiter.{Counter, check}

pub data StartError : Type 0 where
  runtime_error : StartError

pub data Start (A : Type 0) : Type 0 where
  ok : A → Start A
  raise : StartError → Start A

-- What a request gets: its key's identifier, an HTTP error, or an exception that nothing catches.
pub data Access : Type 0 where
  granted : String → Access
  unauthorized : Access
  too_many_requests : ℕ → Access
  type_error : Access

abbrev pub text_beq : Text → Text → Bool
text_beq [] [] = true
text_beq (x ∷ xs) (y ∷ ys) = x == y && text_beq xs ys
text_beq _ _ = false

abbrev pub is_blank : Text → Bool
is_blank [] = true
is_blank (x ∷ xs) = false

-- `secrets.compare_digest` on two `str`; `none` is the TypeError that it raises on a character
-- outside ASCII.
abbrev pub is_ascii : Text → Bool
is_ascii [] = true
is_ascii (x ∷ xs) = ltb x 128 && is_ascii xs

unfoldable pub compare_digest : Text → Text → Option Bool
compare_digest a b = if is_ascii a && is_ascii b then some (text_beq a b) else none

-- `any(compare_digest(x, valid) for valid in keys)`
unfoldable pub any_matches : Text → List Text → Option Bool
unfolding compare_digest
any_matches x [] = some false
any_matches x (valid ∷ keys) = elim (compare_digest x valid) [
  | none ↦ none
  | some true ↦ some true
  | some false ↦ any_matches x keys
]

abbrev pub true_text : Text
true_text = 116 ∷ 114 ∷ 117 ∷ 101 ∷ []

module _ (is_space : ℕ → Bool) (lower : Text → Text) where
  -- `_load_keys` over the values of API_KEYS and ALLOW_UNAUTHENTICATED, "" where unset.
  unfoldable pub load_keys : Text → Text → Start (List Text)
  load_keys api_keys allow_unauthenticated =
      let raw = strip is_space api_keys in
      let keys = select (λ k. not (is_blank k)) (map (strip is_space) (split_on comma raw)) in
      elim keys [
        | [] ↦
            if text_beq (lower allow_unauthenticated) true_text then ok [] else raise runtime_error
        | key ∷ more ↦ ok (key ∷ more)
      ]

module _ (key_id : Text → String) (c : Counter) where
  -- `require_api_key`; `limit` is that of the limiter, which exists while requests are served.
  unfoldable pub require_api_key : List Text → ℕ → ℕ → Text → c.State → Access × c.State
  require_api_key [] limit now x_api_key s = (granted "anonymous", s)
  require_api_key (key ∷ keys) limit now x_api_key s = elim (any_matches x_api_key (key ∷ keys)) [
    | none ↦ (type_error, s)
    | some false ↦ (unauthorized, s)
    | some true ↦
        let id = key_id x_api_key in
        let (verdict, s') = check c limit now id s in
        (if verdict.0 then granted id else too_many_requests verdict.1, s')
  ]
