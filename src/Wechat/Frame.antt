-- ===== src/Wechat/Frame.antt =====
-- `wechatPad`, `wechatUnpad`, and what `encryptMessage` and `decryptMessage` of go/wechat_crypto.go put
-- between the message and the block cipher. A byte is a number below 256. The signature, base64 and
-- AES are libraries' code around it and not modelled.
use erdai_agent.Prelude.{
  ℕ, ◌+◌, ◌-◌, ◌*◌, ◌/◌, ◌%◌, ltb, ◌==◌, Bool, true, false, not, ◌&&◌, ◌||◌, if◌then◌else◌, List,
  [], ◌∷◌, ◌++◌, length, take, drop, replicate, get_elem?,
}
use erdai_agent.Core.{Result, ok, err, ◌>>=◌, ◌>>◌, guard, or_fail, failed}

unfoldable pub pad : List ℕ → List ℕ
pad value = let padding = 32 - length value % 32 in value ++ replicate padding padding

unfoldable pub all_are : ℕ → List ℕ → Bool
all_are padding [] = true
all_are padding (b ∷ bs) = b == padding && all_are padding bs

-- the checks of the last byte and of the bytes that it counts
unfoldable pub unpad_by : List ℕ → ℕ → Result (List ℕ)
unpad_by value padding =
    if ltb padding 1 || ltb 32 padding || ltb (length value) padding
    then err (failed "wechat padding is invalid")
    else if not (all_are padding (drop (length value - padding) value))
    then err (failed "wechat padding is invalid")
    else ok (take (length value - padding) value)

unfoldable pub unpad : List ℕ → Result (List ℕ)
unpad value =
    or_fail (get_elem? value (length value - 1)) (failed "wechat padding is empty")
    >>= unpad_by value

-- `binary.BigEndian.PutUint32(length, uint32(n))`
abbrev pub put_uint32 : ℕ → List ℕ
put_uint32 n = n / 16_777_216 % 256 ∷ n / 65_536 % 256 ∷ n / 256 % 256 ∷ n % 256 ∷ []

-- `binary.BigEndian.Uint32`, of four bytes
unfoldable pub get_uint32 : List ℕ → ℕ
get_uint32 (a ∷ b ∷ c ∷ d ∷ rest) = a * 16_777_216 + b * 65_536 + c * 256 + d
get_uint32 bs = 0

-- the prefix, the length, the message and the receiver
abbrev pub plaintext_of : List ℕ → List ℕ → List ℕ → List ℕ
plaintext_of random_prefix receive_id message =
    random_prefix ++ (put_uint32 (length message) ++ (message ++ receive_id))

-- the plaintext that `encryptMessage` gives to the cipher
unfoldable pub frame : List ℕ → List ℕ → List ℕ → List ℕ
frame random_prefix receive_id message = pad (plaintext_of random_prefix receive_id message)

-- `==` of two texts, as `subtle.ConstantTimeCompare` decides it
unfoldable pub same_bytes : List ℕ → List ℕ → Bool
same_bytes [] [] = true
same_bytes (a ∷ as') (b ∷ bs) = a == b && same_bytes as' bs
same_bytes xs ys = false

abbrev pub is_empty : List ℕ → Bool
is_empty [] = true
is_empty (b ∷ bs) = false

-- the plaintext after the padding is gone, and the length of its message
unfoldable pub read_message : List ℕ → List ℕ → ℕ → Result (List ℕ)
read_message receive_id plaintext n =
    if ltb (length plaintext) (20 + n)
    then err (failed "wechat callback message length is invalid")
    else if not (is_empty receive_id) && not (same_bytes (drop (20 + n) plaintext) receive_id)
    then err (failed "wechat callback receive id does not match")
    else ok (take n (drop 20 plaintext))

-- what `decryptMessage` does with the plaintext of the cipher
unfoldable pub open_frame : List ℕ → List ℕ → Result (List ℕ)
open_frame receive_id value = do
  plaintext ← unpad value
  guard (not (ltb (length plaintext) 20)) (failed "wechat callback plaintext is invalid")
  read_message receive_id plaintext (get_uint32 (take 4 (drop 16 plaintext)))
