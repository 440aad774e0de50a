-- ===== src/Auth/Identity.antt =====
-- src/glip/native_auth.py: the shape of an identity, and `verify_password`. The derivation of a hash
-- (`derive_password_hash`) and the decoder of base64 are parameters.
use arquitech_glip_premium_b.Prelude.{
  ℕ, ◌+◌, Bool, false, not, ◌&&◌, ◌||◌, Option, none, some, [], ◌∷◌, ◌==◌, if◌then◌else◌, ltb,
  length, RowId, Text, is_empty, strip, lower,
}
use arquitech_glip_premium_b.Auth.Data.{Credential, Settings}

unfoldable pub normalize_email : Text → Text
normalize_email value = lower (strip value)

-- `value.count(c)`
unfoldable pub count : ℕ → Text → ℕ
count c [] = 0
count c (x ∷ xs) = let rest = count c xs in if x == c then rest + 1 else rest

-- `rsplit("@", 1)` of a text that has one `@`.
unfoldable pub local_part : Text → Text
local_part [] = []
local_part (x ∷ xs) = let rest = local_part xs in if x == b'@' then [] else x ∷ rest

unfoldable pub domain_part : Text → Text
domain_part [] = []
domain_part (x ∷ xs) = let rest = domain_part xs in if x == b'@' then xs else rest

unfoldable pub starts_with_dot : Text → Bool
starts_with_dot [] = false
starts_with_dot (x ∷ xs) = x == b'.'

unfoldable pub ends_with_dot : Text → Bool
ends_with_dot [] = false
ends_with_dot (x ∷ xs) = let rest = ends_with_dot xs in if is_empty xs then x == b'.' else rest

unfoldable pub valid_email_shape : Text → Bool
valid_email_shape value =
    if is_empty value || ltb 320 (length value) || not (count b'@' value == 1)
    then false
    else not (is_empty (local_part value))
      && not (is_empty (domain_part value))
      && ltb 0 (count b'.' (domain_part value))
      && not (starts_with_dot (domain_part value))
      && not (ends_with_dot (domain_part value))

-- The test at the start of `authenticate_native`.
unfoldable pub is_malformed : Settings → Text → Text → Text → Bool
is_malformed settings tenant email password =
    is_empty tenant
    || ltb 64 (length tenant)
    || not (valid_email_shape email)
    || is_empty password
    || ltb settings.password_max_length (length password)

module _ (derive_password_hash : Text → RowId → RowId) (decode : Text → Option RowId) where
  unfoldable pub verify_password : Text → Option Credential → Bool
  verify_password password none = false
  verify_password password (some credential) = elim (decode credential.password_salt_b64) [
    | none ↦ false
    | some salt ↦ elim (decode credential.password_hash_b64) [
      | none ↦ false
      | some expected ↦ derive_password_hash password salt == expected
    ]
  ]
