-- ===== src/Dns/Base64.antt =====
-- src/dns.rs: `base64url`, the encoding of a query in a DoH request.
-- A byte is below 256, so `b >> k` is `b / 2 ^ k`, `(b & m) << k` is `b % (m + 1) * 2 ^ k`, and `|` of
-- parts that share no bit is `+`.
pub mod RoundTrip
use ip_tools.Base.{ℕ, ◌+◌, ◌*◌, ◌/◌, ◌%◌, List, [], ◌∷◌, Bytes, Text, text}
use ip_tools.Dns.Outcome.{Outcome, ok, ◌>>=◌, index}

unfoldable pub alphabet : Text
unfolding text
alphabet = text "ABCDEFGHIJKLMNOPQRSTUVWXYZabcdefghijklmnopqrstuvwxyz0123456789-_"

-- `ALPHABET[i]`.
unfoldable pub symbol : ℕ → Outcome ℕ
unfolding alphabet
symbol i = index alphabet i

-- One step for each chunk of three bytes; a byte that the last chunk lacks is read as 0.
unfoldable pub base64url : Bytes → Outcome Text
unfolding symbol
base64url [] = ok []
base64url (b0 ∷ []) = do s0 ← symbol (b0 / 4); s1 ← symbol (b0 % 4 * 16 + 0 / 16); ok (s0 ∷ s1 ∷ [])
base64url (b0 ∷ b1 ∷ []) = do
  s0 ← symbol (b0 / 4)
  s1 ← symbol (b0 % 4 * 16 + b1 / 16)
  s2 ← symbol (b1 % 16 * 4 + 0 / 64)
  ok (s0 ∷ s1 ∷ s2 ∷ [])
base64url (b0 ∷ b1 ∷ b2 ∷ bytes) = do
  s0 ← symbol (b0 / 4)
  s1 ← symbol (b0 % 4 * 16 + b1 / 16)
  s2 ← symbol (b1 % 16 * 4 + b2 / 64)
  s3 ← symbol (b2 % 64)
  rest ← base64url bytes
  ok (s0 ∷ s1 ∷ s2 ∷ s3 ∷ rest)
