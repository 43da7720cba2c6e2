-- ===== src/Features/RedisOnline/Keys.antt =====
-- The keys of the Redis online store: distinct within a group, and not always across groups.
use Prim.Native.String.append
use ml_monitor.Prelude.{String, ◌<>◌, ◌≡◌, sym, ap, ◌∙◌}
use ml_monitor.Features.RedisOnline.{key}

append-cancel : (p a b : String) → p <> a ≡ p <> b → a ≡ b
append-cancel String.[] a b h = sym (append.nil a) ∙ h ∙ append.nil b
append-cancel (String.◌∷◌ c p) a b h =
    append-cancel p a b (cc (h, append.cons c p a, append.cons c p b))

append_assoc : (a b c : String) → (a <> b) <> c ≡ a <> (b <> c)
append_assoc String.[] b c = ap (λ t. t <> c) (append.nil b) ∙ sym (append.nil (b <> c))
append_assoc (String.◌∷◌ x a) b c =
    ap (λ t. t <> c) (append.cons x a b)
    ∙ append.cons x (a <> b) c
    ∙ ap (String.◌∷◌ x) (append_assoc a b c)
    ∙ sym (append.cons x a (b <> c))

-- Two entities of one group have different keys.
pub key-injective : (group e f : String) → key group e ≡ key group f → e ≡ f
unfolding key
key-injective group e f h =
    append-cancel ":" e f
      (append-cancel group (":" <> e) (":" <> f) (append-cancel "ml_platform.features:" _ _ h))

-- A colon in a group's name and one in an entity's id are alike: the keys of two groups meet.
pub key-collision :
    (group middle e : String) → key (group <> (":" <> middle)) e ≡ key group (middle <> (":" <> e))
unfolding key
key-collision group middle e =
    ap (λ t. "ml_platform.features:" <> t)
      (append_assoc group (":" <> middle) (":" <> e)
        ∙ ap (λ t. group <> t) (append_assoc ":" middle (":" <> e)))
