-- ===== src/Fraud/Keys/Tests.antt =====
-- The theorems on API keys, each applied to concrete values.
use ml_monitor.Prelude.{ℕ, ◌≡◌, refl, Bool, true, String, [], ◌∷◌, ◌⊎◌, string_eq, nat_eq, any}
use ml_monitor.Samples.Servers.{counter}
use ml_monitor.Fraud.RateLimiter.{check}
use ml_monitor.Fraud.Text.{strip, Text, split_on}
use ml_monitor.Fraud.Keys.{any_matches, load_keys, require_api_key, text_beq, true_text}
use ml_monitor.Fraud.Keys.Laws.{require_api_key-granted}

abbrev is_space : ℕ → Bool
is_space c = nat_eq.beq c 32

abbrev lower : Text → Text
lower t = t

abbrev key_id : Text → String
key_id t = "k"

abbrev key_a : Text
key_a = 97 ∷ []

require_api_key-granted_example :
    ((key_a ∷ [] ≡ []) × (text_beq (lower []) true_text ≡ true) × ◌≡◌ {A = String} "k" "anonymous")
    ⊎ ((any (text_beq key_a) (key_a ∷ []) ≡ true)
        × ◌≡◌ {A = String} "k" (key_id key_a)
        × (((check counter 5 61 "k" (λ b. 0)).0).0 ≡ true))
unfolding load_keys require_api_key split_on strip check any_matches
require_api_key-granted_example =
    require_api_key-granted is_space lower key_id counter key_a [] (key_a ∷ []) 5 61 key_a (λ b. 0)
      "k" refl refl
