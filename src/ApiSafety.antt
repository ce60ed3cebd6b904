-- ===== src/ApiSafety.antt =====
-- `sanitize_text` of apps/api/app/services/api_safety.py, as the services call it (with no secret
-- values of its own). Python's `str` methods and `re` are parameters.
use authclaw_mvp.Common.{List, [], ◌∷◌, Text}

-- SECRET_PATTERNS, in order.
pub data SecretPattern : Type 0 where
  email phone card private_key akia asia github_prefixed github_pat sk_key key_value field_name :
      SecretPattern

abbrev pub secret_patterns : List SecretPattern
secret_patterns =
    email ∷ phone ∷ card ∷ private_key ∷ akia ∷ asia ∷ github_prefixed ∷ github_pat ∷ sk_key
    ∷ key_value ∷ field_name ∷ []

pub record TextLibrary : Type 0 where
  -- `" ".join(text.replace("\x00", " ").split())`
  pub squeeze : Text → Text
  -- `pattern.sub("[redacted]", text)`
  pub redact : SecretPattern → Text → Text

pub redact_all : TextLibrary → List SecretPattern → Text → Text
redact_all lib [] text = text
redact_all lib (p ∷ ps) text = redact_all lib ps (lib.redact p text)

unfoldable pub sanitize_text : TextLibrary → Text → Text
unfolding redact_all
sanitize_text lib value = redact_all lib secret_patterns (lib.squeeze value)
