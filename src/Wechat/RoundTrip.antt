-- ===== src/Wechat/RoundTrip.antt =====
-- What go/wechat_crypto.go frames and pads, it opens again.
use erdai_agent.Prelude.{
  ℕ, zero, suc, ◌+◌, ◌-◌, ◌%◌, ◌≤◌, ◌<◌, ltb, Bool, true, false, not, ◌&&◌, ◌||◌, some, ◌≡◌, refl,
  arith, List, [], ◌∷◌, ◌++◌, length, take, drop, replicate, get_elem?, length-append,
  length-replicate, take-length, drop-length, if_false, sym, ap, subst, ◌∙◌,
}
use erdai_agent.Core.{ok, ◌>>=◌, guard, or_fail, failed}
use erdai_agent.Wechat.Frame.{
  pad, all_are, unpad_by, unpad, put_uint32, plaintext_of, get_uint32, frame, same_bytes, is_empty,
  read_message, open_frame,
}

all_are-replicate : (p n : ℕ) → all_are p (replicate n p) ≡ true
unfolding all_are
all_are-replicate p zero = refl
all_are-replicate p (suc n) = ground (arith, all_are-replicate p n)

last-replicate : (k p : ℕ) → get_elem? (replicate (suc k) p) k ≡ some p
last-replicate zero p = refl
last-replicate (suc k) p = last-replicate k p

zero_plus : (n : ℕ) → 0 + n ≡ n
zero_plus n = omega arith

suc_plus : (m n : ℕ) → suc m + n ≡ suc (m + n)
suc_plus m n = omega arith

last-append : (xs ys : List ℕ) (k : ℕ) → get_elem? (xs ++ ys) (length xs + k) ≡ get_elem? ys k
last-append [] ys k = ap (get_elem? ys) (zero_plus k)
last-append (x ∷ xs) ys k =
    ap (get_elem? (x ∷ xs ++ ys)) (suc_plus (length xs) k) ∙ last-append xs ys k

in_range : (p n : ℕ) → 1 ≤ p → p ≤ 32 → p ≤ n → (ltb p 1 || ltb 32 p || ltb n p) ≡ false
in_range p n lo hi h = ground arith

-- any padding of 1 to 32 bytes comes off
unpad-append : (v : List ℕ) (k : ℕ) → suc k ≤ 32 → unpad (v ++ replicate (suc k) (suc k)) ≡ ok v
unfolding unpad unpad_by
unpad-append v k h =
    let p = suc k in
    let value = v ++ replicate p p in
    let n : length value ≡ length v + p =
      length-append v (replicate p p) ∙ ap (◌+◌ (length v)) (length-replicate p p) in
    let i : length value - 1 ≡ length v + k = omega arith in
    let j : length value - p ≡ length v = omega arith in
    let last : get_elem? value (length value - 1) ≡ some p =
      ap (get_elem? value) i ∙ last-append v (replicate p p) k ∙ last-replicate k p in
    let fits : (ltb p 1 || ltb 32 p || ltb (length value) p) ≡ false =
      in_range p (length value) (omega arith) h (omega arith) in
    let full : not (all_are p (drop (length value - p) value)) ≡ false =
      ap (λ m. not (all_are p (drop m value))) j
      ∙ ap (λ bs. not (all_are p bs)) (drop-length v (replicate p p))
      ∙ ap not (all_are-replicate p p) in
    ap (λ o. or_fail o (failed "wechat padding is empty") >>= unpad_by value) last
    ∙ if_false _ _ _ fits
    ∙ if_false _ _ _ full
    ∙ ap (λ m. ok (take m value)) j
    ∙ ap ok (take-length v (replicate p p))

unpad-pad : (v : List ℕ) → unpad (pad v) ≡ ok v
unfolding pad
unpad-pad v =
    let k = 31 - length v % 32 in
    let e : suc k ≡ 32 - length v % 32 = omega arith in
    subst (λ m. unpad (v ++ replicate m m) ≡ ok v) e (unpad-append v k (omega arith))

drop-past : (xs ys : List ℕ) (k : ℕ) → drop (length xs + k) (xs ++ ys) ≡ drop k ys
drop-past [] ys k = ap (λ m. drop m ys) (zero_plus k)
drop-past (x ∷ xs) ys k =
    ap (λ m. drop m (x ∷ xs ++ ys)) (suc_plus (length xs) k) ∙ drop-past xs ys k

get-put_uint32 :
    (n : ℕ) (rest : List ℕ) → n < 4_294_967_296 → get_uint32 (take 4 (put_uint32 n ++ rest)) ≡ n
unfolding get_uint32
get-put_uint32 n rest h = omega arith

pub same_bytes_refl : (bs : List ℕ) → same_bytes bs bs ≡ true
unfolding same_bytes
same_bytes_refl [] = refl
same_bytes_refl (b ∷ bs) = ground (arith, same_bytes_refl bs)

-- the parts of a plaintext
module _ (random_prefix receive_id message : List ℕ) (h : length random_prefix ≡ 16) where
  plain-length :
      length (plaintext_of random_prefix receive_id message)
      ≡ 20 + length message + length receive_id
  plain-length =
      let a = length-append random_prefix (put_uint32 (length message) ++ message ++ receive_id) in
      let b = length-append message receive_id in
      let c : length (put_uint32 (length message) ++ message ++ receive_id)
          ≡ 4 + length (message ++ receive_id) =
        omega arith in
      omega arith

  plain-header :
      drop 16 (plaintext_of random_prefix receive_id message)
      ≡ put_uint32 (length message) ++ message ++ receive_id
  plain-header =
      ap (λ m. drop m (plaintext_of random_prefix receive_id message)) (sym h)
      ∙ drop-length random_prefix (put_uint32 (length message) ++ message ++ receive_id)

  plain-body : drop 20 (plaintext_of random_prefix receive_id message) ≡ message ++ receive_id
  plain-body =
      let e : 20 ≡ length random_prefix + 4 = omega arith in
      ap (λ m. drop m (plaintext_of random_prefix receive_id message)) e
      ∙ drop-past random_prefix (put_uint32 (length message) ++ message ++ receive_id) 4

  plain-id : drop (20 + length message) (plaintext_of random_prefix receive_id message) ≡ receive_id
  plain-id =
      let e : 20 + length message ≡ length random_prefix + suc (suc (suc (suc (length message)))) =
        omega arith in
      ap (λ m. drop m (plaintext_of random_prefix receive_id message)) e
      ∙ drop-past random_prefix (put_uint32 (length message) ++ message ++ receive_id)
          (suc (suc (suc (suc (length message)))))
      ∙ drop-length message receive_id

  read_message-plain :
      read_message receive_id (plaintext_of random_prefix receive_id message) (length message)
      ≡ ok message
  unfolding read_message
  read_message-plain =
      let fits : ltb (length (plaintext_of random_prefix receive_id message)) (20 + length message)
          ≡ false =
        at_least (length (plaintext_of random_prefix receive_id message)) (20 + length message)
          (omega (arith, plain-length)) in
      let same : same_bytes
            (drop (20 + length message) (plaintext_of random_prefix receive_id message)) receive_id
          ≡ true =
        ap (λ bs. same_bytes bs receive_id) plain-id ∙ same_bytes_refl receive_id in
      if_false _ _ _ fits
      ∙ if_false _ _ _ (matched (not (is_empty receive_id)) _ same)
      ∙ ap (λ bs. ok (take (length message) bs)) plain-body
      ∙ ap ok (take-length message receive_id)
    where
      at_least : (m n : ℕ) → n ≤ m → ltb m n ≡ false
      at_least m n p = ground arith

      matched : (a b : Bool) → b ≡ true → (a && not b) ≡ false
      matched a b p = ground arith

-- What is framed with sixteen random bytes and padded is opened again to the same message, for a
-- message of fewer than 2 ^ 32 bytes and any receiver, the empty one too.
pub open_frame-frame :
    (random_prefix receive_id message : List ℕ)
    → length random_prefix ≡ 16
    → length message < 4_294_967_296
    → open_frame receive_id (frame random_prefix receive_id message) ≡ ok message
unfolding open_frame frame
open_frame-frame random_prefix receive_id message h n =
    let v = plaintext_of random_prefix receive_id message in
    let long : ltb (length v) 20 ≡ false =
      twenty (length v) (omega (arith, plain-length random_prefix receive_id message h)) in
    ap
      (λ m. m >>= λ u.
        guard (not (ltb (length u) 20)) (failed "wechat callback plaintext is invalid") >>= λ w.
        read_message receive_id u (get_uint32 (take 4 (drop 16 u))))
      (unpad-pad v)
    ∙ ap
        (λ b. guard (not b) (failed "wechat callback plaintext is invalid") >>= λ w.
          read_message receive_id v (get_uint32 (take 4 (drop 16 v))))
        long
    ∙ ap (λ bs. read_message receive_id v (get_uint32 (take 4 bs)))
        (plain-header random_prefix receive_id message h)
    ∙ ap (read_message receive_id v) (get-put_uint32 (length message) (message ++ receive_id) n)
    ∙ read_message-plain random_prefix receive_id message h
  where
    twenty : (m : ℕ) → 20 ≤ m → ltb m 20 ≡ false
    twenty m p = ground arith
