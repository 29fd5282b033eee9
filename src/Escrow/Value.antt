-- ===== src/Escrow/Value.antt =====
-- The `unknown` values that service/newsletter-retention-escrow.ts checks, and its checks of a field.
-- The members of an object have distinct names; `undefined` is what a missing one has.
use mailgun_ses_proxy.Base.{
  ℕ, suc, String, Bool, true, false, not, ◌&&◌, ◌||◌, Option, none, some, List, [], ◌∷◌, leb, ◌==◌,
  length, every, if◌then◌else◌,
}
use Prim.Native.String.{◌++◌ as concat}
use mailgun_ses_proxy.Base.Attempt.{Attempt, returned, threw, ◌>>◌, throw_if}
use mailgun_ses_proxy.Base.Number.{
  Number, is_safe_integer, is_not_positive, is_negative, floor, to_nat,
}
use mailgun_ses_proxy.Retention.Instant.{Civil, matched, is_date}
use mailgun_ses_proxy.Retention.Policy.{is_trimmed}
use mailgun_ses_proxy.SqsWorker.Limits.{is_digit}
use mailgun_ses_proxy.Escrow.Text.{Text, ◌===◌}

mutual
  pub data Value : Type 0 where
    undefined null : Value
    boolean : Bool → Value
    number : Number → Value
    string : Text → Value
    array : Items → Value
    object : Members → Value

  pub data Items : Type 0 where
    end : Items
    item : Value → Items → Items

  pub data Members : Type 0 where
    done : Members
    member : Text → Value → Members → Members

unfoldable pub get_member : Text → Members → Value
get_member key done = undefined
get_member key (member k v rest) = let found = get_member key rest in if k === key then v else found

unfoldable pub has_member : Text → Members → Bool
has_member key done = false
has_member key (member k v rest) = k === key || has_member key rest

unfoldable pub count_members : Members → ℕ
count_members done = 0
count_members (member k v rest) = suc (count_members rest)

unfoldable pub expect_plain_object_with_exact_keys :
    Value → List Text → (label : String) → Attempt Members
unfolding count_members has_member
expect_plain_object_with_exact_keys (object members) keys label = do
  throw_if (not (count_members members == length keys)) (concat label " must have exact keys")
  throw_if (not (every (λ key. has_member key members) keys)) (concat label " must have exact keys")
  returned members
expect_plain_object_with_exact_keys _ keys label =
    threw (concat label " must be a plain object with exact keys")

unfoldable pub normalize_version : Value → Attempt ℕ
normalize_version (number v) = do
  throw_if (not (is_safe_integer v && not (is_negative v) && to_nat (floor v) == 1))
      "version must equal 1"
  returned 1
normalize_version _ = threw "version must equal 1"

unfoldable pub normalize_positive_safe_integer : Value → (field : String) → Attempt ℕ
normalize_positive_safe_integer (number v) field = do
  throw_if (not (is_safe_integer v) || is_not_positive v)
      (concat field " must be a positive safe integer")
  returned (to_nat (floor v))
normalize_positive_safe_integer _ field = threw (concat field " must be a positive safe integer")

unfoldable pub normalize_non_negative_safe_integer : Value → (field : String) → Attempt ℕ
normalize_non_negative_safe_integer (number v) field = do
  throw_if (not (is_safe_integer v) || is_negative v)
      (concat field " must be a non-negative safe integer")
  returned (to_nat (floor v))
normalize_non_negative_safe_integer _ field =
    threw (concat field " must be a non-negative safe integer")

unfoldable pub normalize_manifest_index : Value → Attempt ℕ
normalize_manifest_index (number v) = do
  throw_if (not (is_safe_integer v) || is_negative v)
      "manifestIndex must be a non-negative safe integer"
  returned (to_nat (floor v))
normalize_manifest_index _ = threw "manifestIndex must be a non-negative safe integer"

abbrev is_empty : Text → Bool
is_empty [] = true
is_empty (c ∷ cs) = false

unfoldable pub normalize_strict_identifier : Value → (field : String) → Attempt Text
normalize_strict_identifier (string t) field = do
  throw_if (is_empty t || not (is_trimmed t)) (concat field " must be a non-empty string")
  returned t
normalize_strict_identifier _ field = threw (concat field " must be a non-empty string")

-- The same checks.
unfoldable pub normalize_strict_site_id : Value → (field : String) → Attempt Text
normalize_strict_site_id (string t) field = do
  throw_if (is_empty t || not (is_trimmed t)) (concat field " must be a non-empty string")
  returned t
normalize_strict_site_id _ field = threw (concat field " must be a non-empty string")

unfoldable pub normalize_string : Value → (field : String) → Attempt Text
normalize_string (string t) field = returned t
normalize_string _ field = threw (concat field " must be a string")

abbrev is_date_of : Option Civil → Bool
is_date_of none = false
is_date_of (some civil) = is_date civil

unfoldable pub normalize_utc_millis : Value → (field : String) → Attempt Text
normalize_utc_millis (string t) field = do
  throw_if (not (is_date_of (matched t)))
      (concat field " must be a canonical UTC millisecond string")
  returned t
normalize_utc_millis _ field = threw (concat field " must be a canonical UTC millisecond string")

abbrev is_lowercase_hex : ℕ → Bool
is_lowercase_hex c = leb b'a' c && leb c b'f' || is_digit c

unfoldable pub normalize_hash : Value → (field : String) → Attempt Text
normalize_hash (string t) field = do
  throw_if (not (every is_lowercase_hex t && length t == 64))
      (concat field " must be a lowercase 64-hex string")
  returned t
normalize_hash _ field = threw (concat field " must be a lowercase 64-hex string")

unfoldable pub normalize_recipient_data : Value → Attempt (Option Text)
normalize_recipient_data null = returned none
normalize_recipient_data (string t) = returned (some t)
normalize_recipient_data _ = threw "recipientData must be a string or null"

-- For a number that is given.
unfoldable pub normalize_escrow_limit :
    Option Number → (fallback : ℕ) → (field : String) → Attempt ℕ
normalize_escrow_limit none fallback field = returned fallback
normalize_escrow_limit (some v) fallback field = do
  throw_if (not (is_safe_integer v) || is_not_positive v || not (leb (to_nat (floor v)) fallback))
      (concat field " must be a positive safe integer within the hard limit")
  returned (to_nat (floor v))
