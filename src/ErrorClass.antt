-- ===== src/ErrorClass.antt =====
-- lib/core/error-class.ts: what is kept of an error in logs and in the worker registry.
pub mod Laws
use mailgun_ses_proxy.Base.{
  String, ℕ, suc, Bool, true, false, ◌&&◌, ◌||◌, List, [], ◌∷◌, leb, ◌==◌, every, length,
  if◌then◌else◌, str_eq,
}
use Prim.Native.Char.{code}

-- What can be thrown: an `Error` with its name, or any other value.
pub data Thrown : Type 0 where
  error : (name : String) → Thrown
  value : Thrown

abbrev pub codes : String → List ℕ
codes String.[] = []
codes (String.◌∷◌ c s) = code c ∷ codes s

abbrev pub is_letter : ℕ → Bool
is_letter c = leb b'A' c && leb c b'Z' || leb b'a' c && leb c b'z'

abbrev pub is_word : ℕ → Bool
is_word c = is_letter c || leb b'0' c && leb c b'9' || c == b'_'

-- /^[A-Za-z][A-Za-z0-9_]{0,63}$/
abbrev pub is_identifier : List ℕ → Bool
is_identifier [] = false
is_identifier (c ∷ cs) = is_letter c && every is_word cs && leb (length cs) 63

unfoldable pub error_class : Thrown → String
error_class value = "UnknownError"
error_class (error name) =
    let shown : String = if str_eq name "" then "Error" else name in
    if is_identifier (codes shown) then shown else "Error"
